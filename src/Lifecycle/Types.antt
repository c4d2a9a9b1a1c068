-- ===== src/Lifecycle/Types.antt =====
-- The states and the record (lab_coding_job_lifecycle.py).
use hands_free_auto_lab_port.Prelude.{String, Bool, true, false, Option, ℤ, pos}

-- `CODING_JOB_LIFECYCLE_STATES`; `unknown` is any other string.
pub data State : Type 0 where
  requested running completed failed timed_out : State
  unknown : String → State

unfoldable pub state_name : State → String
state_name requested = "REQUESTED"
state_name running = "RUNNING"
state_name completed = "COMPLETED"
state_name failed = "FAILED"
state_name timed_out = "TIMED_OUT"
state_name (unknown s) = s

-- `state in CODING_JOB_LIFECYCLE_STATES`
abbrev pub is_known_state : State → Bool
is_known_state (unknown _) = false
is_known_state _ = true

-- `_ALLOWED_STATE_TRANSITIONS`
unfoldable pub allowed_state_transition : State → State → Bool
allowed_state_transition requested running = true
allowed_state_transition requested failed = true
allowed_state_transition running completed = true
allowed_state_transition running failed = true
allowed_state_transition running timed_out = true
allowed_state_transition _ _ = false

-- the five optional identifiers, in the order in which they are recorded
pub record Evidence : Type 0 where
  pub session_id : Option String
  pub worker_request_id : Option String
  pub worker_result_id : Option String
  pub candidate_id : Option String
  pub integration_result_id : Option String

-- `LabCodingJobLifecycle`
pub record Lifecycle : Type 0 where
  pub component : String
  pub schema_version : ℤ
  pub job_id : String
  pub snapshot_id : String
  pub request_id : String
  pub run_id : String
  pub state : State
  pub evidence : Evidence

abbrev pub lifecycle_component : String
lifecycle_component = "hands-free-auto-lab-coding-job-lifecycle-v1"

abbrev pub lifecycle_schema_version : ℤ
lifecycle_schema_version = pos 1

abbrev pub job_id_domain : String
job_id_domain = "hands-free-auto-lab-coding-job-lifecycle-job-id-v1"

abbrev pub snapshot_id_domain : String
snapshot_id_domain = "hands-free-auto-lab-coding-job-lifecycle-snapshot-id-v1"
