-- ===== src/Queue/Contents.antt =====
-- The items of queues (`validate_lab_coding_job_queue` and `build_lab_coding_job_queue` of
-- lab_coding_job_queue.py).
use mathlib.Core.Path.{subst}
use hands_free_auto_lab_port.Prelude.{
  raise_unless, ℕ, ◌≤◌, ◌≡◌, refl, sym, ap, ◌∙◌, ◌↔◌, true, false, not, List, [], ◌∷◌, All, eqb_ℤ,
  ok, raise_if, >>=-eq-ok, ok-injective, raise_if-ok, traverse, str_eq, eq_refl, eq_iff, ltb,
  length, is_nil, distinct, arith,
}
use hands_free_auto_lab_port.Checks.{Sha256}
use hands_free_auto_lab_port.Queue.Types.{
  RequestContract, Item, Queue, queue_component, queue_schema_version, max_coding_job_queue_items,
}
use hands_free_auto_lab_port.Queue.Validate.{
  validate_lab_coding_job_queue_item, request_ids, run_ids, validate_lab_coding_job_queue,
  queue_identity, queue_of, build_lab_coding_job_queue,
}
use hands_free_auto_lab_port.Queue.Success.{IsItem, IsItem-validate, validate-IsItem}

at_most : (n : ℕ) → ltb max_coding_job_queue_items n ≡ false → n ≤ 32
at_most n h = ground arith

at_most-ltb : (n : ℕ) → n ≤ 32 → ltb max_coding_job_queue_items n ≡ false
at_most-ltb n h = ground arith

module _ (H : Sha256) (C : RequestContract) where
  validate-items :
      (items : List (Item C)) {js : List (Item C)}
      → traverse (validate_lab_coding_job_queue_item H C) items ≡ ok js
      → (js ≡ items) × All (IsItem H C) items
  unfolding traverse
  validate-items [] h = (sym (ok-injective h), tt)
  validate-items (i ∷ items) h =
      let (j, ej, h₁) = >>=-eq-ok (validate_lab_coding_job_queue_item H C i) _ h in
      let (js, ejs, h₂) =
        >>=-eq-ok (traverse (validate_lab_coding_job_queue_item H C) items) _ h₁ in
      let (same, v) = validate-IsItem H C i ej in
      let (rest, vs) = validate-items items ejs in (cc (h₂, same, rest), (v, vs))

  items-validate :
      (items : List (Item C))
      → All (IsItem H C) items
      → traverse (validate_lab_coding_job_queue_item H C) items ≡ ok items
  unfolding traverse
  items-validate [] v = refl
  items-validate (i ∷ items) v = rw (IsItem-validate H C i v.0, items-validate items v.1)

  -- Between 1 and 32 items, each of them bound to its job, no request and no run twice.
  pub record IsQueueable (items : List (Item C)) : Type 0 where
    pub some_item : is_nil items ≡ false
    pub bounded : length items ≤ 32
    pub every_item : All (IsItem H C) items
    pub distinct_requests : distinct (request_ids C items) ≡ true
    pub distinct_runs : distinct (run_ids C items) ≡ true

  queue_of-validate :
      (items : List (Item C))
      → IsQueueable items
      → validate_lab_coding_job_queue H C (queue_of H C items) ≡ ok (queue_of H C items)
  unfolding validate_lab_coding_job_queue queue_of
  queue_of-validate items v =
      rw (v.some_item, at_most-ltb (length items) v.bounded, items-validate items v.every_item)
        (rw (v.distinct_requests, v.distinct_runs, eq_refl (queue_identity H C items)))

  IsQueueable-build :
      (items : List (Item C))
      → IsQueueable items
      → build_lab_coding_job_queue H C items ≡ ok (queue_of H C items)
  unfolding build_lab_coding_job_queue
  IsQueueable-build items v =
      rw (v.some_item, at_most-ltb (length items) v.bounded, items-validate items v.every_item)
        (queue_of-validate items v)

  validate-IsQueueable :
      (q : Queue C) {r : Queue C}
      → validate_lab_coding_job_queue H C q ≡ ok r
      → (r ≡ q) × IsQueueable q.items × (q.queue_id ≡ queue_identity H C q.items)
  unfolding validate_lab_coding_job_queue queue_of
  validate-IsQueueable q h =
      let (_, component, h₁) =
        >>=-eq-ok (raise_if (not (str_eq q.component queue_component)) _) _ h in
      let (_, version, h₂) =
        >>=-eq-ok (raise_if (not (eqb_ℤ q.schema_version queue_schema_version)) _) _ h₁ in
      let (_, some, h₃) = >>=-eq-ok (raise_if (is_nil q.items) _) _ h₂ in
      let (_, bound, h₄) =
        >>=-eq-ok (raise_if (ltb max_coding_job_queue_items (length q.items)) _) _ h₃ in
      let (js, ejs, h₅) =
        >>=-eq-ok (traverse (validate_lab_coding_job_queue_item H C) q.items) _ h₄ in
      let (same, vs) = validate-items q.items ejs in
      let (_, requests, h₆) = >>=-eq-ok (raise_if (not (distinct (request_ids C js))) _) _ h₅ in
      let (_, runs, h₇) = >>=-eq-ok (raise_if (not (distinct (run_ids C js))) _) _ h₆ in
      let (_, identity, h₈) =
        >>=-eq-ok (raise_if (not (str_eq q.queue_id (queue_identity H C js))) _) _ h₇ in
      (
        sym (ok-injective h₈),
        record {
          some_item = raise_unless _ _ some;
          bounded = at_most _ (raise_unless _ _ bound);
          every_item = vs;
          distinct_requests =
              ap (λ xs. distinct (request_ids C xs)) (sym same) ∙ raise_if-ok _ _ requests;
          distinct_runs = ap (λ xs. distinct (run_ids C xs)) (sym same) ∙ raise_if-ok _ _ runs;
        },
        (eq_iff q.queue_id (queue_identity H C js)).0 (raise_if-ok _ _ identity)
            ∙ ap (queue_identity H C) same,
      )

  build-IsQueueable :
      (items : List (Item C)) {q : Queue C}
      → build_lab_coding_job_queue H C items ≡ ok q
      → IsQueueable items × (q ≡ queue_of H C items)
  unfolding build_lab_coding_job_queue queue_of
  build-IsQueueable items h =
      let (_, _, h₁) = >>=-eq-ok (raise_if (is_nil items) _) _ h in
      let (_, _, h₂) =
        >>=-eq-ok (raise_if (ltb max_coding_job_queue_items (length items)) _) _ h₁ in
      let (js, ejs, h₃) =
        >>=-eq-ok (traverse (validate_lab_coding_job_queue_item H C) items) _ h₂ in
      let (same, vs) = validate-items items ejs in
      let (is_built, v, _) = validate-IsQueueable (queue_of H C js) h₃ in
      (subst IsQueueable same v, is_built ∙ ap (queue_of H C) same)

  -- Items make a queue exactly when there are between 1 and 32 of them, each is bound to a valid
  -- request, a run and the job of both, and no request and no run occurs twice; the queue then
  -- holds these items in their order.
  pub queue_build_iff :
      (items : List (Item C)) (q : Queue C)
      → (build_lab_coding_job_queue H C items ≡ ok q)
        ↔ (IsQueueable items × (q ≡ queue_of H C items))
  queue_build_iff items q =
      (λ h. build-IsQueueable items h, λ v. IsQueueable-build items v.0 ∙ ap ok (sym v.1))

  -- The items of a valid queue make a queue again: with these items and with the same identity.
  pub queue_rebuild :
      (q : Queue C) {r : Queue C}
      → validate_lab_coding_job_queue H C q ≡ ok r
      → (s : Queue C) × (build_lab_coding_job_queue H C q.items ≡ ok s)
        × (s.items ≡ q.items)
        × (s.queue_id ≡ q.queue_id)
  unfolding queue_of
  queue_rebuild q h =
      let (_, v, same) = validate-IsQueueable q h in
      (queue_of H C q.items, IsQueueable-build q.items v, refl, sym same)
