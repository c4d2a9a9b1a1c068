-- ===== src/Lifecycle/Tests.antt =====
-- Runs of the life of a coding job, and its theorems at concrete data.
use hands_free_auto_lab_port.Prelude.{◌≡◌, ◌≤◌, ◌↔◌, refl, some, ok, err, raised, lifecycle_error}
use hands_free_auto_lab_port.Samples.{toy, even_id, odd_id, opened}
use hands_free_auto_lab_port.Checks.{null, text}
use hands_free_auto_lab_port.Lifecycle.Types.{
  requested, running, completed, failed, timed_out, Evidence, Lifecycle, allowed_state_transition,
  state_name,
}
use hands_free_auto_lab_port.Lifecycle.Validate.{
  require_identifier, require_optional_identifier, require_evidence, snapshot_object, check_state,
  validate_state_invariants, job_identity, snapshot_identity, validate_lab_coding_job_lifecycle,
  snapshot, no_evidence, build_lab_coding_job_lifecycle,
}
use hands_free_auto_lab_port.Lifecycle.Transition.{
  Supplied, keep_identifier, advance_identifier, advance_evidence, successor,
  transition_lab_coding_job_lifecycle,
}
use hands_free_auto_lab_port.Lifecycle.Success.{Succeeds, lifecycle_transition_iff}
use hands_free_auto_lab_port.Lifecycle.History.{
  Chain, here, next, SameJob, Chain-SameJob, Chain-bounded, lifecycle_build_total,
}

-- Unfolding this name opens what a run of a job computes with.
opened_lifecycle : Unit {0}
unfolding opened allowed_state_transition state_name require_identifier require_optional_identifier
    require_evidence snapshot_object check_state validate_state_invariants job_identity
    snapshot_identity validate_lab_coding_job_lifecycle snapshot build_lab_coding_job_lifecycle
    keep_identifier advance_identifier advance_evidence successor
    transition_lab_coding_job_lifecycle
opened_lifecycle = tt

abbrev job : Lifecycle
job = snapshot toy (job_identity toy even_id odd_id) even_id odd_id requested no_evidence

abbrev begun : Evidence
begun = record no_evidence { session_id = some even_id; worker_request_id = some odd_id }

abbrev finished : Evidence
finished = record begun {
  worker_result_id = some even_id;
  candidate_id = some odd_id;
  integration_result_id = some even_id;
}

abbrev at_start : Supplied
at_start = record {
  session_id = text even_id;
  worker_request_id = text odd_id;
  worker_result_id = null;
  candidate_id = null;
  integration_result_id = null;
}

-- The session is supplied again, as it was.
abbrev at_end : Supplied
at_end = record {
  session_id = text even_id;
  worker_request_id = null;
  worker_result_id = text even_id;
  candidate_id = text odd_id;
  integration_result_id = text even_id;
}

abbrev running_job : Lifecycle
running_job = successor toy job running begun

abbrev completed_job : Lifecycle
completed_job = successor toy running_job completed finished

job_starts : transition_lab_coding_job_lifecycle toy job running at_start ≡ ok running_job
unfolding opened_lifecycle
job_starts = refl

job_completes :
    transition_lab_coding_job_lifecycle toy running_job completed at_end ≡ ok completed_job
unfolding opened_lifecycle
job_completes = refl

-- A session that was recorded cannot be exchanged for another.
session_stays :
    transition_lab_coding_job_lifecycle toy running_job failed
      (record at_start { session_id = text odd_id })
    ≡ err (raised lifecycle_error "session_id" "cannot change once recorded")
unfolding opened_lifecycle
session_stays = refl

-- A job that was not started cannot run out of time.
not_started :
    transition_lab_coding_job_lifecycle toy job timed_out at_start
    ≡ err (raised lifecycle_error "" "illegal coding-job lifecycle transition")
unfolding opened_lifecycle
not_started = refl

to_completed : Chain toy job 2 completed_job
to_completed = next completed at_end (next running at_start here job_starts) job_completes

requested_id : require_identifier "request_id" (text even_id) ≡ ok even_id
unfolding opened_lifecycle
requested_id = refl

run_id : require_identifier "run_id" (text odd_id) ≡ ok odd_id
unfolding opened_lifecycle
run_id = refl

lifecycle_transition_iff_example :
    (transition_lab_coding_job_lifecycle toy job running at_start ≡ ok running_job)
    ↔ Succeeds toy job running at_start running_job
lifecycle_transition_iff_example = lifecycle_transition_iff toy job running at_start running_job

Chain-SameJob_example : SameJob toy job completed_job
Chain-SameJob_example = Chain-SameJob toy to_completed

Chain-bounded_example : 2 ≤ 2
Chain-bounded_example = Chain-bounded toy to_completed

lifecycle_build_total_example :
    build_lab_coding_job_lifecycle toy (text even_id) (text odd_id) ≡ ok job
lifecycle_build_total_example = lifecycle_build_total toy even_id odd_id requested_id run_id
