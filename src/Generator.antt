-- ===== src/Generator.antt =====
-- airflow/scripts/data_generator.py: the synthetic rows of the bulk load, in batches.
pub mod Exact
pub mod Pools
mod Samples
pub mod Rows
