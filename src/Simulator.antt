-- ===== src/Simulator.antt =====
-- services/load_simulator/simulate.py: the load that is put on the receiver.
pub mod Run
pub mod Report
pub mod Percentiles
mod Totals
pub mod Events
mod Counts
mod Ends
mod Order
mod Keys
mod Samples
mod Replay
