-- ===== src/Action.antt =====
-- Actions that a model proposes, and which of them are eligible.
-- (src/hands_free_auto_lab/lab_action.py and lab_policy.py)
pub mod Types
pub mod Validate
pub mod Eligible
pub mod Climbing
pub mod Canonical
pub mod Allowed
pub mod Permitted
mod Tests
