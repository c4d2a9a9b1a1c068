-- ===== src/Queue.antt =====
-- Queues of coding jobs. (src/hands_free_auto_lab/lab_coding_job_queue.py)
pub mod Types
pub mod Validate
pub mod Success
pub mod Contents
pub mod Samples
mod Tests
