-- ===== src/Pipeline.antt =====
-- internal/pipeline: the graph of the steps and their execution.
pub mod Dag
pub mod Executor
