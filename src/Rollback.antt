-- ===== src/Rollback.antt =====
-- Rollback plans for an interrupted promotion.
-- (src/hands_free_auto_lab/lab_promotion_rollback_plan.py)
pub mod Types
pub mod Plan
pub mod Build
pub mod Replay
pub mod Resume
pub mod Finish
mod Tests
