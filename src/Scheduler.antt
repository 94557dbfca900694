-- ===== src/Scheduler.antt =====
-- api/app/services/scheduler_jobs.py: when the periodic jobs are due.
pub mod Due
pub mod Ascending
mod Examples
