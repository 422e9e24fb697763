-- ===== src/Task.antt =====
-- pydatatask/task.py: the tasks of a pipeline.
pub mod Link
pub mod Process
pub mod Kube
pub mod Container
pub mod Futures
pub mod Hash
