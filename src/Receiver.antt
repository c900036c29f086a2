-- ===== src/Receiver.antt =====
-- services/webhook_receiver/app/main.py: validates a webhook and publishes it to Kafka.
mod Accounts
pub mod Keys
pub mod Samples
pub mod Envelope
pub mod Serve
pub mod Lifespan
pub mod Started
