-- ===== src/Worker.antt =====
-- services/order_approved_worker/app/worker.py: delivers the approved orders to the external ERP.
pub mod Settled
pub mod Progress
pub mod Samples
pub mod Deliver
pub mod Loop
pub mod Main
pub mod Restarts
