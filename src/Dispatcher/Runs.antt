-- ===== src/Dispatcher/Runs.antt =====
-- Which jobs have run when a dispatch ends (lab_coding_job_dispatcher.py).
use mathlib.Core.Path.{subst}
use Prim.Native.Nat.{suc}
use hands_free_auto_lab_port.Queue.Validate.{validate_lab_coding_job_queue}
use hands_free_auto_lab_port.Dispatcher.Dispatch.{validate_dispatch_deployments}
use hands_free_auto_lab_port.Prelude.{
  ap, [], ◌∙◌, sym, err, ok, ◌≡◌, Result, ℕ, length, ◌==◌, true, arith, >>=-eq-ok, raise_if,
  raise_if-ok, not, traverse, distinct, map, ok-injective, Error, List, ◌∷◌, refl, ◌↔◌,
}
use hands_free_auto_lab_port.Dispatcher.Dispatch.{
  run_prepared, run_lab_coding_job_queue, and_then, prepare, run_items,
}
use hands_free_auto_lab_port.Queue.Types.{Queue, Item, RequestContract}
use hands_free_auto_lab_port.Dispatcher.Types.{Runner}
use hands_free_auto_lab_port.Checks.{Sha256}

length-traverse {ℓ} :
    {A B : Type ℓ} (f : A → Result B) (xs : List A) {ys : List B}
    → traverse f xs ≡ ok ys
    → length ys ≡ length xs
unfolding traverse
length-traverse f [] h = ap length (sym (ok-injective h))
length-traverse f (x ∷ xs) h =
    let (y, _, h₁) = >>=-eq-ok (f x) _ h in
    let (rest, each, h₂) = >>=-eq-ok (traverse f xs) _ h₁ in
    ap length (sym (ok-injective h₂)) ∙ ap suc (length-traverse f xs each)

module _ (H : Sha256) (C : RequestContract) (R : Runner C) where
  -- The jobs of all items have run in order, each with its own deployment and in the world that the
  -- one before has left, and have returned these results.
  pub data Runs
      : List (Item C) → List R.Deployment → R.World → List R.JobResult → R.World → Type 0 where
    no_item : {w : R.World} → Runs [] [] w [] w
    job_ran :
        {i : Item C} {is : List (Item C)} {d : R.Deployment} {ds : List R.Deployment}
        {w v u : R.World} {r : R.JobResult} {rs : List R.JobResult}
        → R.run i.request d i.run_id w ≡ (ok r, v)
        → Runs is ds v rs u
        → Runs (i ∷ is) (d ∷ ds) w (r ∷ rs) u

  -- Some jobs have run in order, and the next one has raised the exception; no later one has run.
  pub data Stops : List (Item C) → List R.Deployment → R.World → Error → R.World → Type 0 where
    raised_here :
        {i : Item C} {is : List (Item C)} {d : R.Deployment} {ds : List R.Deployment}
        {w v : R.World} {e : Error}
        → R.run i.request d i.run_id w ≡ (err e, v)
        → Stops (i ∷ is) (d ∷ ds) w e v
    raised_later :
        {i : Item C} {is : List (Item C)} {d : R.Deployment} {ds : List R.Deployment}
        {w v u : R.World} {r : R.JobResult} {e : Error}
        → R.run i.request d i.run_id w ≡ (ok r, v)
        → Stops is ds v e u
        → Stops (i ∷ is) (d ∷ ds) w e u

  -- how the loop has ended
  abbrev Ends :
      List (Item C) → List R.Deployment → R.World → Result (List R.JobResult) × R.World → Type 0
  Ends is ds w (ok rs, u) = Runs is ds w rs u
  Ends is ds w (err e, u) = Stops is ds w e u

  job_ran-Ends :
      (i : Item C) (is : List (Item C)) (d : R.Deployment) (ds : List R.Deployment) (w v : R.World)
      (r : R.JobResult) (last : Result (List R.JobResult) × R.World)
      → R.run i.request d i.run_id w ≡ (ok r, v)
      → Ends is ds v last
      → Ends (i ∷ is) (d ∷ ds) w (and_then last (λ rs u. (ok (r ∷ rs), u)))
  job_ran-Ends i is d ds w v r (ok rs, u) ran rest = job_ran ran rest
  job_ran-Ends i is d ds w v r (err e, u) ran rest = raised_later ran rest

  first_job-Ends :
      (i : Item C) (is : List (Item C)) (d : R.Deployment) (ds : List R.Deployment) (w : R.World)
      (first : Result R.JobResult × R.World)
      → R.run i.request d i.run_id w ≡ first
      → ((v : R.World) → Ends is ds v (run_items H C R is ds v))
      → Ends
          (i ∷ is)
          (d ∷ ds)
          w
          (and_then first (λ r v. and_then (run_items H C R is ds v) (λ rs u. (ok (r ∷ rs), u))))
  first_job-Ends i is d ds w (ok r, v) ran rest =
      job_ran-Ends i is d ds w v r (run_items H C R is ds v) ran (rest v)
  first_job-Ends i is d ds w (err e, v) ran rest = raised_here ran

  run_items-Ends :
      (is : List (Item C)) (ds : List R.Deployment) (w : R.World)
      → length ds ≡ length is
      → Ends is ds w (run_items H C R is ds w)
  unfolding run_items
  run_items-Ends [] [] w paired = no_item
  run_items-Ends [] (d ∷ ds) w paired = absurd (ground arith)
  run_items-Ends (i ∷ is) [] w paired = absurd (ground arith)
  run_items-Ends (i ∷ is) (d ∷ ds) w paired =
      first_job-Ends i is d ds w (R.run i.request d i.run_id w) refl
        (λ v. run_items-Ends is ds v (ground arith))

  run_items-Runs :
      {is : List (Item C)} {ds : List R.Deployment} {w u : R.World} {rs : List R.JobResult}
      → Runs is ds w rs u
      → run_items H C R is ds w ≡ (ok rs, u)
  unfolding run_items
  run_items-Runs no_item = refl
  run_items-Runs (job_ran ran rest) = rw (ran, run_items-Runs rest) refl

  run_items-Stops :
      {is : List (Item C)} {ds : List R.Deployment} {w u : R.World} {e : Error}
      → Stops is ds w e u
      → run_items H C R is ds w ≡ (err e, u)
  unfolding run_items
  run_items-Stops (raised_here stopped) = rw stopped refl
  run_items-Stops (raised_later ran rest) = rw (ran, run_items-Stops rest) refl

  same_length : (m n : ℕ) → (m == n) ≡ true → m ≡ n
  same_length m n h = ground arith

  -- A queue and deployments that are validated go together one by one.
  prepare-length :
      (queue : Queue C) (deployments : List R.Deployment) {q : Queue C} {ds : List R.Deployment}
      → prepare H C R queue deployments ≡ ok (q, ds)
      → length ds ≡ length q.items
  unfolding prepare validate_dispatch_deployments
  prepare-length queue deployments {q = q} {ds = ds} h =
      let (p, _, h₁) = >>=-eq-ok (validate_lab_coding_job_queue H C queue) _ h in
      let (ts, trusted, h₂) = >>=-eq-ok (validate_dispatch_deployments H C R p deployments) _ h₁ in
      let (_, count, h₃) =
        >>=-eq-ok (raise_if (not (length deployments == length p.items)) _) _ trusted in
      let (us, each, h₄) = >>=-eq-ok (traverse R.validate_deployment deployments) _ h₃ in
      let (_, _, h₅) = >>=-eq-ok (raise_if (not (distinct (map R.session_id us))) _) _ h₄ in
      let same : (p, us) ≡ (q, ds) = ap (λ x. (p, x)) (ok-injective h₅) ∙ ok-injective h₂ in
      subst (λ (x : Queue C × List R.Deployment). length x.1 ≡ length (x.0).items) same
        (length-traverse R.validate_deployment deployments each
          ∙ same_length _ _ (raise_if-ok _ _ count))

  module _ (queue trusted_queue : Queue C) (deployments trusted : List R.Deployment) (w u : R.World)
      (prepared : prepare H C R queue deployments ≡ ok (trusted_queue, trusted)) where
    dispatch_is :
        run_lab_coding_job_queue H C R queue deployments w
        ≡ run_items H C R trusted_queue.items trusted w
    unfolding run_lab_coding_job_queue run_prepared
    dispatch_is = ap (λ p. run_prepared H C R p w) prepared

    -- Once the queue and the deployments are validated, a dispatch returns results exactly when every
    -- job of the queue has run, in the order of the queue, each with its own deployment and in the
    -- world that the one before has left, and has returned its result.
    pub run_lab_coding_job_queue-Runs :
        (rs : List R.JobResult)
        → (run_lab_coding_job_queue H C R queue deployments w ≡ (ok rs, u))
          ↔ Runs trusted_queue.items trusted w rs u
    run_lab_coding_job_queue-Runs rs = (
      λ h. subst (Ends trusted_queue.items trusted w) (sym dispatch_is ∙ h) (
          run_items-Ends trusted_queue.items trusted w (prepare-length queue deployments prepared)),
      λ ran. dispatch_is ∙ run_items-Runs ran,
    )

    -- Once the queue and the deployments are validated, a dispatch raises an exception exactly when
    -- some jobs have run in the order of the queue and the next one has raised it; no later job has
    -- run then.
    pub run_lab_coding_job_queue-Stops :
        (e : Error)
        → (run_lab_coding_job_queue H C R queue deployments w ≡ (err e, u))
          ↔ Stops trusted_queue.items trusted w e u
    run_lab_coding_job_queue-Stops e = (
      λ h. subst (Ends trusted_queue.items trusted w) (sym dispatch_is ∙ h) (
          run_items-Ends trusted_queue.items trusted w (prepare-length queue deployments prepared)),
      λ stopped. dispatch_is ∙ run_items-Stops stopped,
    )
