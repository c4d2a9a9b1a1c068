-- ===== src/Dispatcher/Tests.antt =====
-- A dispatch of two jobs, and the theorems about dispatches at concrete data.
use hands_free_auto_lab_port.Prelude.{
  err, str_eq, ◌≡◌, if◌then◌else◌, ok, List, [], ◌∷◌, refl, String, ◌↔◌,
}
use hands_free_auto_lab_port.Dispatcher.Runs.{
  run_lab_coding_job_queue-Stops, run_lab_coding_job_queue-Runs, Runs, Stops,
}
use hands_free_auto_lab_port.Samples.{odd_id, even_id, toy}
use hands_free_auto_lab_port.Dispatcher.Dispatch.{
  error, run_prepared, run_items, run_lab_coding_job_queue, prepare, validate_dispatch_deployments,
}
use hands_free_auto_lab_port.Dispatcher.Guard.{dispatch_guard, IsPrepared}
use hands_free_auto_lab_port.Queue.Validate.{queue_of}
use hands_free_auto_lab_port.Queue.Types.{Queue}
use hands_free_auto_lab_port.Dispatcher.Types.{Runner}
use hands_free_auto_lab_port.Queue.Samples.{opened_queue, bare, two}

-- A deployment is its session, the world is the list of runs that were started, and a job whose
-- session is "fails" raises.
abbrev recorder : Runner bare
recorder = record {
  World = List String;
  Deployment = String;
  JobResult = String;
  session_id = λ d. d;
  validate_deployment = λ d. ok d;
  run = λ request d run_id w.
      if str_eq d "fails"
      then (err (error "" "job failed"), run_id ∷ w)
      else (ok request, run_id ∷ w);
}

abbrev both : Queue bare
both = queue_of toy bare two

abbrev sessions : List String
sessions = "first" ∷ "second" ∷ []

abbrev one_fails : List String
one_fails = "fails" ∷ "second" ∷ []

-- Unfolding this name opens what a run of the dispatcher computes with.
opened_dispatch : Unit {0}
unfolding opened_queue validate_dispatch_deployments prepare run_items run_prepared
    run_lab_coding_job_queue
opened_dispatch = tt

both_prepared : prepare toy bare recorder both sessions ≡ ok (both, sessions)
unfolding opened_dispatch
both_prepared = refl

failing_prepared : prepare toy bare recorder both one_fails ≡ ok (both, one_fails)
unfolding opened_dispatch
failing_prepared = refl

dispatched :
    run_lab_coding_job_queue toy bare recorder both sessions []
    ≡ (ok (even_id ∷ odd_id ∷ []), even_id ∷ odd_id ∷ [])
unfolding opened_dispatch
dispatched = refl

run_lab_coding_job_queue-Runs_example :
    (run_lab_coding_job_queue toy bare recorder both sessions []
      ≡ (ok (even_id ∷ odd_id ∷ []), even_id ∷ odd_id ∷ []))
    ↔ Runs toy bare recorder both.items sessions [] (even_id ∷ odd_id ∷ []) (even_id ∷ odd_id ∷ [])
run_lab_coding_job_queue-Runs_example =
    run_lab_coding_job_queue-Runs toy bare recorder both both sessions sessions []
      (even_id ∷ odd_id ∷ []) both_prepared (even_id ∷ odd_id ∷ [])

run_lab_coding_job_queue-Stops_example :
    (run_lab_coding_job_queue toy bare recorder both one_fails []
      ≡ (err (error "" "job failed"), odd_id ∷ []))
    ↔ Stops toy bare recorder both.items one_fails [] (error "" "job failed") (odd_id ∷ [])
run_lab_coding_job_queue-Stops_example =
    run_lab_coding_job_queue-Stops toy bare recorder both both one_fails one_fails [] (odd_id ∷ [])
      failing_prepared (error "" "job failed")

dispatch_guard_example : IsPrepared toy bare recorder both sessions
dispatch_guard_example =
    dispatch_guard toy bare recorder both sessions [] (even_id ∷ odd_id ∷ []) dispatched (λ e. cc)
