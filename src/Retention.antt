-- ===== src/Retention.antt =====
-- airflow/dags/pipeline_log_retention.py: `enforce_retention`.
mod Bounds
mod Trim
mod Samples
pub mod Run
