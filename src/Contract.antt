-- ===== src/Contract.antt =====
-- The requests that callers send and the results that they get, as records and as wire values.
-- (src/hands_free_auto_lab/lab_coding_integration_contract.py)
pub mod Types
pub mod Checks
pub mod Wire
pub mod Request
pub mod Outcome
pub mod Plain
pub mod Parts
pub mod WireRefusals
pub mod RoundTrip
pub mod Refusals
pub mod Build
pub mod Results
mod Tests
