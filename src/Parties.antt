-- ===== src/Parties.antt =====
-- The versions of addresses, which `upsert_current_address` of
-- services/ingestion_consumer/app/db_ops.py writes.
pub mod Versions
pub mod History
pub mod Upsert
pub mod Expiry
pub mod Succeeds
pub mod Placed
