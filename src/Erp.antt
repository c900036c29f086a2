-- ===== src/Erp.antt =====
-- services/mock_external_api/app/main.py: the ERP that the worker delivers to.
pub mod Serve
mod Received
mod Samples
