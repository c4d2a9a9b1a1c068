-- ===== src/Lifecycle/Validate.antt =====
-- Identities, the invariants of each state, the validation, and the first snapshot
-- (lab_coding_job_lifecycle.py).
use hands_free_auto_lab_port.Prelude.{
  String, Bool, true, false, not, ◌||◌, ◌&&◌, Option, none, some, [], ◌∷◌, eqb_ℤ, Error, raised,
  lifecycle_error, Result, ok, err, raise_if, ◌>>=◌, ◌>>◌, str_eq, if◌then◌else◌,
}
use hands_free_auto_lab_port.Json.{Json, object_of}
use hands_free_auto_lab_port.Checks.{Value, null, text, optional_text, Sha256, is_hex}
use hands_free_auto_lab_port.Proposal.{identity, json_text}
use hands_free_auto_lab_port.Lifecycle.Types.{
  State, requested, running, completed, failed, timed_out, unknown, state_name, is_known_state,
  Evidence, Lifecycle, lifecycle_component, lifecycle_schema_version, job_id_domain,
  snapshot_id_domain,
}

abbrev pub error : String → String → Error
error = raised lifecycle_error

-- `_require_identifier`
unfoldable pub require_identifier : String → Value → Result String
require_identifier name (text s) =
    if is_hex 64 s then ok s else err (error name "must be a lowercase 64-character hex identifier")
require_identifier name _ = err (error name "must be a lowercase 64-character hex identifier")

-- `_require_optional_identifier`
unfoldable pub require_optional_identifier : String → Value → Result (Option String)
unfolding require_identifier
require_optional_identifier name null = ok none
require_optional_identifier name value = do s ← require_identifier name value; ok (some s)

-- `_snapshot_identity`
unfoldable pub snapshot_object : String → String → String → State → Evidence → Json
unfolding state_name
snapshot_object job_id request_id run_id state e = object_of (
    ("component", Json.text lifecycle_component)
    ∷ ("schema_version", Json.integer lifecycle_schema_version)
    ∷ ("job_id", Json.text job_id)
    ∷ ("request_id", Json.text request_id)
    ∷ ("run_id", Json.text run_id)
    ∷ ("state", Json.text (state_name state))
    ∷ ("session_id", json_text e.session_id)
    ∷ ("worker_request_id", json_text e.worker_request_id)
    ∷ ("worker_result_id", json_text e.worker_result_id)
    ∷ ("candidate_id", json_text e.candidate_id)
    ∷ ("integration_result_id", json_text e.integration_result_id)
    ∷ [])

abbrev pub is_none : Option String → Bool
is_none none = true
is_none (some _) = false

-- the branch of `_validate_state_invariants` for each state
unfoldable pub check_state : State → Evidence → Result (Unit {0})
check_state requested e =
    raise_if
      (not (is_none e.session_id)
        || (not (is_none e.worker_request_id)
            || (not (is_none e.worker_result_id)
                || (not (is_none e.candidate_id) || not (is_none e.integration_result_id)))))
      (error "" "REQUESTED cannot contain execution or terminal evidence")
check_state running e = do
  raise_if (is_none e.session_id) (error "" "RUNNING requires session_id")
  raise_if
      (not (is_none e.worker_result_id)
        || (not (is_none e.candidate_id) || not (is_none e.integration_result_id)))
      (error "" "RUNNING cannot contain terminal result evidence")
check_state completed e =
    raise_if
      (is_none e.session_id
        || (is_none e.worker_request_id
            || (is_none e.worker_result_id
                || (is_none e.candidate_id || is_none e.integration_result_id))))
      (error "" "COMPLETED requires exact terminal evidence")
check_state failed e =
    raise_if (not (is_none e.candidate_id) || not (is_none e.integration_result_id))
      (error "" "FAILED cannot contain successful candidate/result evidence")
check_state timed_out e = do
  raise_if (not (is_none e.candidate_id) || not (is_none e.integration_result_id))
      (error "" "TIMED_OUT cannot contain successful candidate/result evidence")
  raise_if (is_none e.session_id) (error "" "TIMED_OUT requires session_id")
check_state (unknown _) e = ok tt

-- `_validate_state_invariants`
unfoldable pub validate_state_invariants : State → Evidence → Result (Unit {0})
unfolding check_state
validate_state_invariants state e = do
  raise_if (not (is_known_state state)) (error "" "unknown coding-job lifecycle state")
  raise_if (not (is_none e.worker_request_id) && is_none e.session_id)
      (error "" "worker_request_id requires session_id")
  raise_if (not (is_none e.worker_result_id) && is_none e.worker_request_id)
      (error "" "worker_result_id requires worker_request_id")
  check_state state e

-- the five identifiers, each checked
unfoldable pub require_evidence : Value → Value → Value → Value → Value → Result Evidence
unfolding require_optional_identifier
require_evidence session request result candidate integration = do
  session_id ← require_optional_identifier "session_id" session
  worker_request_id ← require_optional_identifier "worker_request_id" request
  worker_result_id ← require_optional_identifier "worker_result_id" result
  candidate_id ← require_optional_identifier "candidate_id" candidate
  integration_result_id ← require_optional_identifier "integration_result_id" integration
  ok (record {
    session_id = session_id;
    worker_request_id = worker_request_id;
    worker_result_id = worker_result_id;
    candidate_id = candidate_id;
    integration_result_id = integration_result_id;
  })

abbrev pub no_evidence : Evidence
no_evidence = record {
  session_id = none;
  worker_request_id = none;
  worker_result_id = none;
  candidate_id = none;
  integration_result_id = none;
}

module _ (H : Sha256) where
  -- `_job_id`
  unfoldable pub job_identity : String → String → String
  job_identity request_id run_id =
      identity H job_id_domain
        (object_of (("request_id", Json.text request_id) ∷ ("run_id", Json.text run_id) ∷ []))

  -- `_snapshot_id` of `_snapshot_identity`
  unfoldable pub snapshot_identity : String → String → String → State → Evidence → String
  snapshot_identity job_id request_id run_id state e =
      identity H snapshot_id_domain (snapshot_object job_id request_id run_id state e)

  unfoldable pub validate_lab_coding_job_lifecycle : Lifecycle → Result Lifecycle
  validate_lab_coding_job_lifecycle l = do
    raise_if (not (str_eq l.component lifecycle_component))
        (error "" "coding-job lifecycle component mismatch")
    raise_if (not (eqb_ℤ l.schema_version lifecycle_schema_version))
        (error "" "unsupported coding-job lifecycle schema version")
    job_id ← require_identifier "job_id" (text l.job_id)
    snapshot_id ← require_identifier "snapshot_id" (text l.snapshot_id)
    request_id ← require_identifier "request_id" (text l.request_id)
    run_id ← require_identifier "run_id" (text l.run_id)
    evidence ←
        require_evidence (optional_text l.evidence.session_id)
          (optional_text l.evidence.worker_request_id) (optional_text l.evidence.worker_result_id)
          (optional_text l.evidence.candidate_id) (optional_text l.evidence.integration_result_id)
    raise_if (not (str_eq job_id (job_identity request_id run_id)))
        (error "" "job_id does not match exact request_id/run_id identity")
    validate_state_invariants l.state evidence
    raise_if
        (not (str_eq snapshot_id (snapshot_identity job_id request_id run_id l.state evidence)))
        (error "" "snapshot_id does not match exact coding-job lifecycle state")
    ok l

  -- a snapshot with the identity of its contents
  unfoldable pub snapshot : String → String → String → State → Evidence → Lifecycle
  snapshot job_id request_id run_id state e = record {
    component = lifecycle_component;
    schema_version = lifecycle_schema_version;
    job_id = job_id;
    snapshot_id = snapshot_identity job_id request_id run_id state e;
    request_id = request_id;
    run_id = run_id;
    state = state;
    evidence = e;
  }

  unfoldable pub build_lab_coding_job_lifecycle : Value → Value → Result Lifecycle
  unfolding snapshot
  build_lab_coding_job_lifecycle request_id run_id = do
    trusted_request_id ← require_identifier "request_id" request_id
    trusted_run_id ← require_identifier "run_id" run_id
    validate_lab_coding_job_lifecycle (
        snapshot (job_identity trusted_request_id trusted_run_id) trusted_request_id trusted_run_id
          requested no_evidence)
