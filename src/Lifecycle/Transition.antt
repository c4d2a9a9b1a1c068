-- ===== src/Lifecycle/Transition.antt =====
-- One transition of a coding job (`_advance_identifier` and `transition_lab_coding_job_lifecycle`
-- of lab_coding_job_lifecycle.py).
use hands_free_auto_lab_port.Prelude.{
  String, not, Option, none, some, Result, ok, err, raise_if, ◌>>=◌, ◌>>◌, str_eq, if◌then◌else◌,
}
use hands_free_auto_lab_port.Checks.{Value, null, Sha256}
use hands_free_auto_lab_port.Lifecycle.Types.{
  State, is_known_state, allowed_state_transition, Evidence, Lifecycle,
}
use hands_free_auto_lab_port.Lifecycle.Validate.{
  error, require_identifier, validate_state_invariants, validate_lab_coding_job_lifecycle,
  snapshot_identity,
}

-- what is recorded is kept: `trusted != current` is refused
unfoldable pub keep_identifier : String → Option String → String → Result (Option String)
keep_identifier name none trusted = ok (some trusted)
keep_identifier name (some current) trusted =
    if str_eq trusted current
    then ok (some trusted)
    else err (error name "cannot change once recorded")

unfoldable pub advance_identifier : String → Option String → Value → Result (Option String)
unfolding keep_identifier
advance_identifier name current null = ok current
advance_identifier name current supplied = do
  trusted ← require_identifier name supplied
  keep_identifier name current trusted

-- the keyword arguments of the transition
pub record Supplied : Type 0 where
  pub session_id : Value
  pub worker_request_id : Value
  pub worker_result_id : Value
  pub candidate_id : Value
  pub integration_result_id : Value

unfoldable pub advance_evidence : Evidence → Supplied → Result Evidence
advance_evidence e s = do
  session_id ← advance_identifier "session_id" e.session_id s.session_id
  worker_request_id ← advance_identifier "worker_request_id" e.worker_request_id s.worker_request_id
  worker_result_id ← advance_identifier "worker_result_id" e.worker_result_id s.worker_result_id
  candidate_id ← advance_identifier "candidate_id" e.candidate_id s.candidate_id
  integration_result_id ←
      advance_identifier "integration_result_id" e.integration_result_id s.integration_result_id
  ok (record {
    session_id = session_id;
    worker_request_id = worker_request_id;
    worker_result_id = worker_result_id;
    candidate_id = candidate_id;
    integration_result_id = integration_result_id;
  })

module _ (H : Sha256) where
  unfoldable pub successor : Lifecycle → State → Evidence → Lifecycle
  successor l state e = record l {
    snapshot_id = snapshot_identity H l.job_id l.request_id l.run_id state e;
    state = state;
    evidence = e;
  }

  -- The state is given as a string, so the check of its type has no branch.
  unfoldable pub transition_lab_coding_job_lifecycle :
      Lifecycle → State → Supplied → Result Lifecycle
  transition_lab_coding_job_lifecycle current state supplied = do
    l ← validate_lab_coding_job_lifecycle H current
    raise_if (not (is_known_state state)) (error "" "unknown successor state")
    raise_if (not (allowed_state_transition l.state state))
        (error "" "illegal coding-job lifecycle transition")
    e ← advance_evidence l.evidence supplied
    validate_state_invariants state e
    validate_lab_coding_job_lifecycle H (successor l state e)
