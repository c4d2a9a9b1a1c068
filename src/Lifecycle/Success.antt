-- ===== src/Lifecycle/Success.antt =====
-- When a lifecycle transition succeeds, and what it returns
-- (`transition_lab_coding_job_lifecycle` of lab_coding_job_lifecycle.py).
use mathlib.Core.Path.{subst}
use hands_free_auto_lab_port.Prelude.{
  String, ◌≡◌, refl, sym, ap, ◌↔◌, true, not, Option, none, some, ok, >>=-eq-ok, ok-injective,
  raise_if, raise_if-ok, eq_refl, eq_iff, str_eq, arith,
}
use hands_free_auto_lab_port.Json.{Json}
use hands_free_auto_lab_port.Checks.{Value, null, text, optional_text, Sha256, is_hex}
use hands_free_auto_lab_port.Proposal.{identity}
use hands_free_auto_lab_port.Lifecycle.Types.{
  State, is_known_state, allowed_state_transition, Evidence, Lifecycle,
}
use hands_free_auto_lab_port.Lifecycle.Validate.{
  require_identifier, require_optional_identifier, validate_state_invariants, snapshot_identity,
  validate_lab_coding_job_lifecycle,
}
use hands_free_auto_lab_port.Lifecycle.Transition.{
  advance_identifier, advance_evidence, Supplied, successor, transition_lab_coding_job_lifecycle,
}
use hands_free_auto_lab_port.Lifecycle.Facts.{
  ◌⟶◌, allowed-⟶, ⟶-allowed, Holds, validate_state_invariants-Holds,
  Holds-validate_state_invariants, IsRecorded, IsRecorded-require, require-IsRecorded, IsValid,
  IsValid-validate, validate-IsValid,
}

-- One identifier: nothing is supplied and the old value stays; or a well-formed identifier is
-- supplied where there was none, or where the same one was recorded.
pub data Advances : Option String → Value → Option String → Type 0 where
  keep : {o : Option String} → Advances o null o
  fill : {s : String} → is_hex 64 s ≡ true → Advances none (text s) (some s)
  repeat : {s : String} → is_hex 64 s ≡ true → Advances (some s) (text s) (some s)

pub record AdvancesAll (e : Evidence) (s : Supplied) (f : Evidence) : Type 0 where
  pub session_id : Advances e.session_id s.session_id f.session_id
  pub worker_request_id : Advances e.worker_request_id s.worker_request_id f.worker_request_id
  pub worker_result_id : Advances e.worker_result_id s.worker_result_id f.worker_result_id
  pub candidate_id : Advances e.candidate_id s.candidate_id f.candidate_id
  pub integration_result_id :
      Advances e.integration_result_id s.integration_result_id f.integration_result_id

module _ (name : String) where
  Advances-advance :
      {o : Option String} {v : Value} {n : Option String}
      → Advances o v n
      → advance_identifier name o v ≡ ok n
  unfolding advance_identifier require_identifier
  Advances-advance keep = refl
  Advances-advance (fill h) = rw h
  Advances-advance (repeat {s = s} h) = rw (h, eq_refl s)

  advance-Advances :
      (o : Option String) (v : Value) (n : Option String)
      → advance_identifier name o v ≡ ok n
      → Advances o v n
  unfolding advance_identifier require_identifier
  advance-Advances o null n h = subst (λ x. Advances o null x) (ok-injective h) keep
  advance-Advances none (text s) n h =
      let hex : is_hex 64 s ≡ true = ground arith in
      let value : some s ≡ n = ground arith in
      subst (λ x. Advances none (text s) x) value (fill hex)
  advance-Advances (some c) (text s) n h =
      let hex : is_hex 64 s ≡ true = ground arith in
      let same : str_eq s c ≡ true = ground arith in
      let value : some s ≡ n = ground arith in
      subst (λ y. Advances (some y) (text s) n) ((eq_iff s c).0 same)
        (subst (λ x. Advances (some s) (text s) x) value (repeat hex))
  advance-Advances o _ n h = cc

  Advances-recorded :
      {o : Option String} {v : Value} {n : Option String}
      → Advances o v n
      → require_optional_identifier name (optional_text o) ≡ ok o
      → require_optional_identifier name (optional_text n) ≡ ok n
  unfolding require_optional_identifier
  Advances-recorded keep h = h
  Advances-recorded (fill k) h = rw k
  Advances-recorded (repeat k) h = rw k

advance-AdvancesAll :
    (e : Evidence) (s : Supplied) {f : Evidence} → advance_evidence e s ≡ ok f → AdvancesAll e s f
unfolding advance_evidence
advance-AdvancesAll e s h =
    let (a, ea, h₁) = >>=-eq-ok (advance_identifier "session_id" e.session_id s.session_id) _ h in
    let (b, eb, h₂) =
      >>=-eq-ok (advance_identifier "worker_request_id" e.worker_request_id s.worker_request_id) _
        h₁ in
    let (c, ec, h₃) =
      >>=-eq-ok (advance_identifier "worker_result_id" e.worker_result_id s.worker_result_id) _
        h₂ in
    let (d, ed, h₄) =
      >>=-eq-ok (advance_identifier "candidate_id" e.candidate_id s.candidate_id) _ h₃ in
    let (i, ei, h₅) =
      >>=-eq-ok
        (advance_identifier "integration_result_id" e.integration_result_id s.integration_result_id)
        _ h₄ in
    subst (λ x. AdvancesAll e s x) (ok-injective h₅)
      (record {
        session_id = advance-Advances _ e.session_id s.session_id a ea;
        worker_request_id = advance-Advances _ e.worker_request_id s.worker_request_id b eb;
        worker_result_id = advance-Advances _ e.worker_result_id s.worker_result_id c ec;
        candidate_id = advance-Advances _ e.candidate_id s.candidate_id d ed;
        integration_result_id =
            advance-Advances _ e.integration_result_id s.integration_result_id i ei;
      })

AdvancesAll-advance :
    (e : Evidence) (s : Supplied) {f : Evidence} → AdvancesAll e s f → advance_evidence e s ≡ ok f
unfolding advance_evidence
AdvancesAll-advance e s a = rw (
  Advances-advance _ a.session_id,
  Advances-advance _ a.worker_request_id,
  Advances-advance _ a.worker_result_id,
  Advances-advance _ a.candidate_id,
  Advances-advance _ a.integration_result_id,
)

AdvancesAll-IsRecorded :
    {e : Evidence} {s : Supplied} {f : Evidence} → AdvancesAll e s f → IsRecorded e → IsRecorded f
AdvancesAll-IsRecorded a r = record {
  session_id = Advances-recorded _ a.session_id r.session_id;
  worker_request_id = Advances-recorded _ a.worker_request_id r.worker_request_id;
  worker_result_id = Advances-recorded _ a.worker_result_id r.worker_result_id;
  candidate_id = Advances-recorded _ a.candidate_id r.candidate_id;
  integration_result_id = Advances-recorded _ a.integration_result_id r.integration_result_id;
}

module _ (H : Sha256) where
  pub hex_of_identity :
      (name d : String) (value : Json)
      → require_identifier name (text (identity H d value)) ≡ ok (identity H d value)
  unfolding require_identifier identity
  hex_of_identity name d value = rw H.hexdigest-IsHex

  successor-IsValid :
      (l : Lifecycle) (s : State) (e : Evidence)
      → IsValid H l
      → IsRecorded e
      → Holds s e
      → IsValid H (successor H l s e)
  unfolding successor snapshot_identity
  successor-IsValid l s e v r h = record {
    component = v.component;
    schema_version = v.schema_version;
    job_id = v.job_id;
    snapshot_id = hex_of_identity _ _ _;
    request_id = v.request_id;
    run_id = v.run_id;
    recorded = IsRecorded-require e r;
    job_binding = v.job_binding;
    invariants = Holds-validate_state_invariants s e h;
    snapshot_binding = eq_refl _;
  }

  -- The conditions of a transition, and the lifecycle `u` that it gives.
  pub record Succeeds (l : Lifecycle) (s : State) (p : Supplied) (u : Lifecycle) : Type 0 where
    pub valid : IsValid H l
    pub step : l.state ⟶ s
    pub advances : AdvancesAll l.evidence p u.evidence
    pub holds : Holds s u.evidence
    pub result : u ≡ successor H l s u.evidence

  pub state-Succeeds :
      {l : Lifecycle} {s : State} {p : Supplied} {u : Lifecycle} → Succeeds l s p u → u.state ≡ s
  unfolding successor
  state-Succeeds h = ap (λ (x : Lifecycle). x.state) h.result

  Succeeds-transition :
      (l : Lifecycle) (s : State) (p : Supplied) (u : Lifecycle)
      → Succeeds l s p u
      → transition_lab_coding_job_lifecycle H l s p ≡ ok u
  unfolding transition_lab_coding_job_lifecycle
  Succeeds-transition l s p u h =
      let recorded = (require-IsRecorded l.evidence h.valid.recorded).1 in
      let next = IsValid-validate H (successor H l s u.evidence) (
        successor-IsValid l s u.evidence h.valid (AdvancesAll-IsRecorded h.advances recorded)
          h.holds) in
      rw (IsValid-validate H l h.valid, h.holds.known, ⟶-allowed h.step)
        (rw
          (
            AdvancesAll-advance l.evidence p h.advances,
            Holds-validate_state_invariants s u.evidence h.holds,
          )
          (cc (next, h.result)))

  pub transition-Succeeds :
      (l : Lifecycle) (s : State) (p : Supplied) (u : Lifecycle)
      → transition_lab_coding_job_lifecycle H l s p ≡ ok u
      → Succeeds l s p u
  unfolding transition_lab_coding_job_lifecycle successor
  transition-Succeeds l s p u h =
      let (c, ec, _) = >>=-eq-ok (validate_lab_coding_job_lifecycle H l) _ h in
      let v = (validate-IsValid H l ec).1 in
      let h₀ = rw (IsValid-validate H l v) at h in
      let (_, _, h₁) = >>=-eq-ok (raise_if (not (is_known_state s)) _) _ h₀ in
      let (_, allowed, h₂) =
        >>=-eq-ok (raise_if (not (allowed_state_transition l.state s)) _) _ h₁ in
      let (e, ee, h₃) = >>=-eq-ok (advance_evidence l.evidence p) _ h₂ in
      let (_, inv, h₄) = >>=-eq-ok (validate_state_invariants s e) _ h₃ in
      let result = (validate-IsValid H (successor H l s e) h₄).0 in
      subst (λ x. Succeeds l s p x) (sym result)
        (record {
          valid = v;
          step = allowed-⟶ l.state s (raise_if-ok _ _ allowed);
          advances = advance-AdvancesAll l.evidence p ee;
          holds = validate_state_invariants-Holds s e inv;
          result = refl;
        })

  -- A lifecycle transition succeeds exactly when the current snapshot passes its validation, the
  -- step is in the table, each identifier supplied is well formed and not in conflict with a
  -- recorded one, and the new state's rules hold of the evidence; it then returns the successor.
  pub lifecycle_transition_iff :
      (l : Lifecycle) (s : State) (p : Supplied) (u : Lifecycle)
      → (transition_lab_coding_job_lifecycle H l s p ≡ ok u) ↔ Succeeds l s p u
  lifecycle_transition_iff l s p u = (transition-Succeeds l s p u, Succeeds-transition l s p u)
