-- ===== src/Lifecycle/Completed.antt =====
-- How a coding job comes to be COMPLETED (lab_coding_job_lifecycle.py).
use hands_free_auto_lab_port.Prelude.{String, ◌≡◌, Option, none, some}
use hands_free_auto_lab_port.Checks.{Sha256}
use hands_free_auto_lab_port.Lifecycle.Types.{running, Lifecycle}
use hands_free_auto_lab_port.Lifecycle.History.{Chain}

-- An identifier is recorded.
abbrev pub Recorded : Option String → Type 0
Recorded o = (s : String) × (o ≡ some s)

module _ (H : Sha256) where
  -- Between the first snapshot and the COMPLETED one the job was RUNNING in a session, with neither
  -- a worker result nor a candidate nor an integration result; the session is still the same, and
  -- the worker's request and the three results are recorded.
  pub record HasRun (l u : Lifecycle) : Type 0 where
    pub middle : Lifecycle
    pub begun : Chain H l 1 middle
    pub was_running : middle.state ≡ running
    pub session : String
    pub session_then : middle.evidence.session_id ≡ some session
    pub session_now : u.evidence.session_id ≡ some session
    pub no_result_then : middle.evidence.worker_result_id ≡ none
    pub no_candidate_then : middle.evidence.candidate_id ≡ none
    pub no_integration_then : middle.evidence.integration_result_id ≡ none
    pub worker_request : Recorded u.evidence.worker_request_id
    pub worker_result : Recorded u.evidence.worker_result_id
    pub candidate : Recorded u.evidence.candidate_id
    pub integration_result : Recorded u.evidence.integration_result_id
