-- ===== src/Snapshot.antt =====
-- Snapshots of a workspace, and what has changed from one to the next.
-- (src/hands_free_auto_lab/lab_workspace_snapshot.py)
pub mod Types
pub mod Validate
pub mod Diff
pub mod Paths
pub mod Changes
pub mod Samples
mod Tests
