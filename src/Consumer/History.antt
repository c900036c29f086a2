-- ===== src/Consumer/History.antt =====
-- The audit trail: `orders` against `order_status_history`, through every handler.
pub mod Frame
pub mod Trail
pub mod Lists
pub mod Steps
pub mod Audited
