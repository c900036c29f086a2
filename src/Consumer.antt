-- ===== src/Consumer.antt =====
-- services/ingestion_consumer/app/consumer.py: the events, the messages and the loop.
pub mod Process
pub mod Handle
pub mod Loop
pub mod Invariant
pub mod Terminal
pub mod Ledger
pub mod Idempotence
pub mod History
pub mod Progress
pub mod Closing
pub mod Linked
pub mod Succeeds
pub mod Applied
pub mod Created
pub mod Bought
pub mod Billed
pub mod Early
pub mod Machine
pub mod Main
pub mod Restarts
pub mod Samples
