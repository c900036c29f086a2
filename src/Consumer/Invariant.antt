-- ===== src/Consumer/Invariant.antt =====
-- From predicates that the statements respect to predicates that the messages, the batches and the
-- loop of services/ingestion_consumer/app/consumer.py keep.
pub mod Walk
pub mod Body
pub mod Lift
pub mod Txn
pub mod Orders
