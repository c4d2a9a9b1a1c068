-- ===== src/Lifecycle.antt =====
-- The lifecycle of one coding job: its states, its evidence and its transitions.
-- (src/hands_free_auto_lab/lab_coding_job_lifecycle.py)
pub mod Types
pub mod Validate
pub mod Transition
pub mod Facts
pub mod Success
pub mod History
pub mod Completed
mod Tests
