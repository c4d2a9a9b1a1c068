-- ===== src/Queue/Success.antt =====
-- When an item or a queue is accepted, and what is built (lab_coding_job_queue.py).
use hands_free_auto_lab_port.Prelude.{
  String, ◌≡◌, refl, sym, ap, ◌∙◌, true, not, eqb_ℤ, ok, raise_if, >>=-eq-ok, ok-injective,
  raise_if-ok, str_eq, eq_iff, arith,
}
use hands_free_auto_lab_port.Checks.{text, Sha256, is_hex}
use hands_free_auto_lab_port.Lifecycle.Types.{requested, Lifecycle}
use hands_free_auto_lab_port.Lifecycle.Validate.{
  require_identifier, build_lab_coding_job_lifecycle, snapshot, job_identity, no_evidence,
}
use hands_free_auto_lab_port.Lifecycle.History.{lifecycle_build_total}
use hands_free_auto_lab_port.Queue.Types.{
  RequestContract, Item, item_component, item_schema_version,
}
use hands_free_auto_lab_port.Queue.Validate.{
  validate_lab_coding_job_queue_item, queue_item, build_lab_coding_job_queue_item,
}

require-hex :
    (name s : String) {t : String} → require_identifier name (text s) ≡ ok t → is_hex 64 s ≡ true
unfolding require_identifier
require-hex name s h = ground arith

hex-require : (name s : String) → is_hex 64 s ≡ true → require_identifier name (text s) ≡ ok s
unfolding require_identifier
hex-require name s h = rw h

module _ (H : Sha256) where
  -- the first snapshot of the job of a request and a run
  abbrev pub first : String → String → Lifecycle
  first request_id run_id =
      snapshot H (job_identity H request_id run_id) request_id run_id requested no_evidence

  pub lifecycle-hex :
      (r s : String) {l : Lifecycle}
      → build_lab_coding_job_lifecycle H (text r) (text s) ≡ ok l
      → (is_hex 64 s ≡ true) × (l ≡ first r s)
  unfolding build_lab_coding_job_lifecycle
  lifecycle-hex r s h =
      let (r', er, h₁) = >>=-eq-ok (require_identifier "request_id" (text r)) _ h in
      let (s', es, _) = >>=-eq-ok (require_identifier "run_id" (text s)) _ h₁ in
      let rx = require-hex "request_id" r er in
      let sx = require-hex "run_id" s es in
      (
        sx,
        ok-injective
            (sym h ∙ lifecycle_build_total H r s (hex-require _ r rx) (hex-require _ s sx)),
      )

  pub hex-lifecycle :
      (r s : String)
      → is_hex 64 r ≡ true
      → is_hex 64 s ≡ true
      → build_lab_coding_job_lifecycle H (text r) (text s) ≡ ok (first r s)
  hex-lifecycle r s hr hs = lifecycle_build_total H r s (hex-require _ r hr) (hex-require _ s hs)

  module _ (C : RequestContract) where
    -- An item is bound to a request that is valid and to a run, and its job is that of both.
    pub record IsItem (i : Item C) : Type 0 where
      pub component : i.component ≡ item_component
      pub schema_version : eqb_ℤ i.schema_version item_schema_version ≡ true
      pub request : C.validate i.request ≡ ok i.request
      pub run_id : is_hex 64 i.run_id ≡ true
      pub job_id : i.job_id ≡ job_identity H (C.request_id i.request) i.run_id

    pub IsItem-validate : (i : Item C) → IsItem i → validate_lab_coding_job_queue_item H C i ≡ ok i
    unfolding validate_lab_coding_job_queue_item snapshot
    IsItem-validate i v = rw (
      (eq_iff i.component item_component).1 v.component,
      v.schema_version,
      v.request,
      hex-lifecycle (C.request_id i.request) i.run_id (C.validate-IsHex i.request v.request)
          v.run_id,
      (eq_iff i.job_id (job_identity H (C.request_id i.request) i.run_id)).1 v.job_id,
    )

    pub validate-IsItem :
        (i : Item C) {j : Item C}
        → validate_lab_coding_job_queue_item H C i ≡ ok j
        → (j ≡ i) × IsItem i
    unfolding validate_lab_coding_job_queue_item snapshot
    validate-IsItem i h =
        let (_, component, h₁) =
          >>=-eq-ok (raise_if (not (str_eq i.component item_component)) _) _ h in
        let (_, version, h₂) =
          >>=-eq-ok (raise_if (not (eqb_ℤ i.schema_version item_schema_version)) _) _ h₁ in
        let (r, er, h₃) = >>=-eq-ok (C.validate i.request) _ h₂ in
        let (l, el, h₄) =
          >>=-eq-ok (build_lab_coding_job_lifecycle H (text (C.request_id r)) (text i.run_id)) _
            h₃ in
        let (_, job, h₅) = >>=-eq-ok (raise_if (not (str_eq i.job_id l.job_id)) _) _ h₄ in
        let same = C.validate_same i.request er in
        let (hex, first_of) = lifecycle-hex (C.request_id r) i.run_id el in
        (
          sym (ok-injective h₅),
          record {
            component = (eq_iff i.component item_component).0 (raise_if-ok _ _ component);
            schema_version = raise_if-ok _ _ version;
            request = er ∙ ap ok same;
            run_id = hex;
            job_id =
                (eq_iff i.job_id l.job_id).0 (raise_if-ok _ _ job)
                ∙ ap (λ (x : Lifecycle). x.job_id) first_of
                ∙ ap (λ x. job_identity H (C.request_id x) i.run_id) same;
          },
        )

    -- A valid request and a run id of the right form always give an item of the queue, for that
    -- request, that run, and the job of both.
    pub item_build_total :
        (r : C.Request) (run_id : String) {q : C.Request}
        → C.validate r ≡ ok q
        → is_hex 64 run_id ≡ true
        → (i : Item C) × (build_lab_coding_job_queue_item H C r (text run_id) ≡ ok i)
          × IsItem i
          × (i.request ≡ r)
          × (i.run_id ≡ run_id)
    unfolding build_lab_coding_job_queue_item queue_item snapshot
    item_build_total r run_id h hex =
        let valid = h ∙ ap ok (C.validate_same r h) in
        let i = queue_item H C r (first (C.request_id r) run_id) in
        let v : IsItem i = record {
          component = refl;
          schema_version = refl;
          request = valid;
          run_id = hex;
          job_id = refl;
        } in
        (
          i,
          rw (valid, hex-lifecycle (C.request_id r) run_id (C.validate-IsHex r h) hex)
              (IsItem-validate i v),
          v,
          refl,
          refl,
        )
