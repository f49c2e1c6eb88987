-- ===== src/Scheduler.antt =====
-- The task scheduler (include/tateyama/task_scheduler): how tasks reach the workers' queues and how
-- a worker takes them.
pub mod Queue
pub mod Notifier
pub mod Selection
pub mod Dispatch
pub mod Worker
pub mod Conditional
