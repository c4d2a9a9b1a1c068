-- ===== src/Transaction.antt =====
-- Promotion transactions: the pure state model of one promotion of an exact proposal.
-- (src/hands_free_auto_lab/lab_promotion_transaction_state.py)
pub mod Types
pub mod Checks
pub mod Plan
pub mod Identity
pub mod Validate
pub mod Facts
pub mod Rules
pub mod Updates
pub mod Success
pub mod History
pub mod Unchanged
pub mod Built
pub mod Outcomes
pub mod Completion
pub mod Build
pub mod Transition
pub mod Samples
mod Tests
