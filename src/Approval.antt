-- ===== src/Approval.antt =====
-- The records of the approval of a promotion: challenge, decision, approval and terminal record.
-- (src/hands_free_auto_lab/lab_promotion_approval_state.py)
pub mod Types
pub mod Checks
pub mod Records
pub mod Build
pub mod Names
pub mod Fields
pub mod Accepted
pub mod Choices
mod Tests
