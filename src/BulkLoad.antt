-- ===== src/BulkLoad.antt =====
-- airflow/dags/bulk_load_dimensions.py: the data file of the bulk load, and the tasks of the DAG.
pub mod Text
pub mod Dates
pub mod Line
pub mod Format
mod Digits
pub mod Notify
pub mod Host
pub mod Tasks
pub mod Dag
mod Rules
mod Loaded
mod Served
mod Keeps
mod Clean
mod Reliable
mod Complete
mod Reported
mod Samples
mod RoundTrip
mod Widths
