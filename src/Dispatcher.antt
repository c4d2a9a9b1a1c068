-- ===== src/Dispatcher.antt =====
-- A queue of coding jobs is run, one job after another.
-- (src/hands_free_auto_lab/lab_coding_job_dispatcher.py)
pub mod Types
pub mod Dispatch
pub mod Runs
pub mod Guard
mod Tests
