-- ===== src/Dispatcher/Guard.antt =====
-- What has been validated before the first job starts (lab_coding_job_dispatcher.py).
use hands_free_auto_lab_port.Prelude.{
  raise_if-ok, ◌∙◌, sym, ap, map, distinct, inr, not, raise_if, inl, traverse, length, >>=-eq-ok,
  arith, Result-cases, err, ok, true, ◌≢◌, Error, Result, ◌==◌, ◌≡◌, ℕ, List,
}
use hands_free_auto_lab_port.Dispatcher.Dispatch.{
  run_prepared, validate_dispatch_deployments, run_lab_coding_job_queue, prepare,
}
use hands_free_auto_lab_port.Queue.Validate.{validate_lab_coding_job_queue}
use hands_free_auto_lab_port.Queue.Types.{Queue, RequestContract}
use hands_free_auto_lab_port.Dispatcher.Types.{Runner}
use hands_free_auto_lab_port.Checks.{Sha256}

module _ (H : Sha256) (C : RequestContract) (R : Runner C) where
  queue_same :
      (queue : Queue C) {q : Queue C} → validate_lab_coding_job_queue H C queue ≡ ok q → q ≡ queue
  unfolding validate_lab_coding_job_queue
  queue_same queue h = ground arith

  -- Every job has a deployment, and the deployments are those that were validated.
  pub record IsPrepared (queue : Queue C) (deployments : List R.Deployment) : Type 0 where
    pub valid : validate_lab_coding_job_queue H C queue ≡ ok queue
    pub one_each : length deployments ≡ length queue.items
    pub trusted : List R.Deployment
    pub validated : traverse R.validate_deployment deployments ≡ ok trusted
    pub sessions : distinct (map R.session_id trusted) ≡ true

  same_length : (m n : ℕ) → (m == n) ≡ true → m ≡ n
  same_length m n h = ground arith

  prepare-IsPrepared :
      (queue : Queue C) (deployments : List R.Deployment) {p : Queue C × List R.Deployment}
      → prepare H C R queue deployments ≡ ok p
      → IsPrepared queue deployments
  unfolding prepare validate_dispatch_deployments
  prepare-IsPrepared queue deployments h =
      let (q, valid, h₁) = >>=-eq-ok (validate_lab_coding_job_queue H C queue) _ h in
      let (ts, trusted, _) = >>=-eq-ok (validate_dispatch_deployments H C R q deployments) _ h₁ in
      let (_, count, h₂) =
        >>=-eq-ok (raise_if (not (length deployments == length q.items)) _) _ trusted in
      let (us, each, h₃) = >>=-eq-ok (traverse R.validate_deployment deployments) _ h₂ in
      let (_, unique, _) = >>=-eq-ok (raise_if (not (distinct (map R.session_id us))) _) _ h₃ in
      let same = queue_same queue valid in
      record {
        valid = valid ∙ ap ok same;
        one_each =
            same_length _ _ (raise_if-ok _ _ count) ∙ ap (λ (x : Queue C). length x.items) same;
        trusted = us;
        validated = each;
        sessions = raise_if-ok _ _ unique;
      }

  unprepared :
      (queue : Queue C) (deployments : List R.Deployment) (w : R.World) {e : Error}
      → prepare H C R queue deployments ≡ err e
      → run_lab_coding_job_queue H C R queue deployments w ≡ (err e, w)
  unfolding run_lab_coding_job_queue run_prepared
  unprepared queue deployments w h = ap (λ p. run_prepared H C R p w) h

  -- A dispatch that leaves another world than it has found was given a queue that is valid and one
  -- deployment for every item, each of which passes its validation and has a session of its own.
  pub dispatch_guard :
      (queue : Queue C) (deployments : List R.Deployment) (w u : R.World)
      {last : Result (List R.JobResult)}
      → run_lab_coding_job_queue H C R queue deployments w ≡ (last, u)
      → w ≢ u
      → IsPrepared queue deployments
  dispatch_guard queue deployments w u h changed =
      elim (Result-cases (prepare H C R queue deployments)) [
        | inl (p, prepared) ↦ prepare-IsPrepared queue deployments prepared
        | inr (e, refused) ↦ absurd (
            changed (
              ap (λ (x : Result (List R.JobResult) × R.World). x.1)
                (sym (unprepared queue deployments w refused) ∙ h)))
      ]
