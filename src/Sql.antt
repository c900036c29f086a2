-- ===== src/Sql.antt =====
-- The SQL statements that services/ingestion_consumer/app/db_ops.py sends, as functions on the
-- tables: what each one tests, writes and returns. Texts are compared by the collation.
pub mod Events
pub mod Parties
pub mod Orders
pub mod Billing
pub mod Keys
pub mod Accepted
pub mod Stored
pub mod Upserted
