-- ===== src/Dispatcher/Dispatch.antt =====
-- The deployments are validated and the jobs run (lab_coding_job_dispatcher.py).
use hands_free_auto_lab_port.Prelude.{
  List, [], ◌∷◌, map, ◌==◌, length, not, raise_if, ◌>>◌, ◌>>=◌, distinct, dispatcher_error, err,
  traverse, raised, ok, Error, String, Result,
}
use hands_free_auto_lab_port.Queue.Validate.{validate_lab_coding_job_queue}
use hands_free_auto_lab_port.Queue.Types.{Item, Queue, RequestContract}
use hands_free_auto_lab_port.Dispatcher.Types.{Runner}
use hands_free_auto_lab_port.Checks.{Sha256}

abbrev pub error : String → String → Error
error = raised dispatcher_error

-- The rest of a body runs on the value and in the world that a call has left, unless it raised.
abbrev pub and_then {ℓ} :
    {W : Type ℓ} {A : Type ℓ} {B : Type ℓ} → Result A × W → (A → W → Result B × W) → Result B × W
and_then (ok x, w) rest = rest x w
and_then (err e, w) rest = (err e, w)

module _ (H : Sha256) (C : RequestContract) (R : Runner C) where
  -- `_validate_dispatch_deployments`, for a tuple
  unfoldable pub validate_dispatch_deployments :
      Queue C → List R.Deployment → Result (List R.Deployment)
  unfolding traverse distinct
  validate_dispatch_deployments queue deployments = do
    raise_if (not (length deployments == length queue.items))
        (error "" "deployment count must exactly match queue item count")
    trusted ← traverse R.validate_deployment deployments
    raise_if (not (distinct (map R.session_id trusted)))
        (error "" "deployment session_id values must be unique")
    ok trusted

  -- what is validated before the first job starts
  unfoldable pub prepare : Queue C → List R.Deployment → Result (Queue C × List R.Deployment)
  unfolding validate_dispatch_deployments
  prepare queue deployments = do
    trusted_queue ← validate_lab_coding_job_queue H C queue
    trusted ← validate_dispatch_deployments trusted_queue deployments
    ok (trusted_queue, trusted)

  -- the loop over `zip(items, deployments)`
  unfoldable pub run_items :
      List (Item C) → List R.Deployment → R.World → Result (List R.JobResult) × R.World
  run_items [] deployments w = (ok [], w)
  run_items (item ∷ items) [] w = (ok [], w)
  run_items (item ∷ items) (deployment ∷ deployments) w =
      and_then (R.run item.request deployment item.run_id w) (λ result v.
        and_then (run_items items deployments v) (λ results u. (ok (result ∷ results), u)))

  -- what follows the validation
  unfoldable pub run_prepared :
      Result (Queue C × List R.Deployment) → R.World → Result (List R.JobResult) × R.World
  unfolding run_items
  run_prepared (err e) w = (err e, w)
  run_prepared (ok (trusted_queue, trusted)) w = run_items trusted_queue.items trusted w

  unfoldable pub run_lab_coding_job_queue :
      Queue C → List R.Deployment → R.World → Result (List R.JobResult) × R.World
  unfolding prepare run_prepared
  run_lab_coding_job_queue queue deployments w = run_prepared (prepare queue deployments) w
