-- ===== src/Policy.antt =====
-- Change policies: the only changes that a worker's result may consist of.
-- (src/hands_free_auto_lab/lab_worker_change_policy.py)
pub mod Types
pub mod Checks
pub mod Validate
pub mod Evidence
pub mod Allowed
pub mod Accepted
pub mod Samples
mod Tests
