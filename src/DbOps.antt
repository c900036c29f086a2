-- ===== src/DbOps.antt =====
-- services/ingestion_consumer/app/db_ops.py: one function for each of the file's.
pub mod Events
pub mod Parties
pub mod Orders
pub mod Billing
pub mod PipelineLog
