-- ===== src/Lifecycle/History.antt =====
-- Chains of transitions of one coding job (lab_coding_job_lifecycle.py).
use mathlib.Core.Path.{subst}
use hands_free_auto_lab_port.Prelude.{
  ℕ, zero, suc, ◌+◌, ◌≤◌, String, ◌≡◌, refl, sym, ap, ◌∙◌, Option, some, ok, eq_refl, arith,
}
use hands_free_auto_lab_port.Checks.{Value, text, Sha256}
use hands_free_auto_lab_port.Lifecycle.Types.{
  State, requested, running, Evidence, Lifecycle, lifecycle_component,
}
use hands_free_auto_lab_port.Lifecycle.Validate.{
  require_identifier, require_optional_identifier, validate_state_invariants,
  build_lab_coding_job_lifecycle, snapshot, job_identity, no_evidence, snapshot_identity,
}
use hands_free_auto_lab_port.Lifecycle.Transition.{
  Supplied, successor, transition_lab_coding_job_lifecycle,
}
use hands_free_auto_lab_port.Lifecycle.Facts.{
  ◌⟶◌, start, refuse, IsValid, IsValid-validate, IsRecorded, IsRecorded-require,
}
use hands_free_auto_lab_port.Lifecycle.Success.{
  Advances, keep, fill, repeat, AdvancesAll, transition-Succeeds, state-Succeeds, hex_of_identity,
}

-- What was recorded stays, as it was.
abbrev pub Kept : Option String → Option String → Type 0
Kept o n = (s : String) → o ≡ some s → n ≡ some s

pub record KeptAll (e f : Evidence) : Type 0 where
  pub session_id : Kept e.session_id f.session_id
  pub worker_request_id : Kept e.worker_request_id f.worker_request_id
  pub worker_result_id : Kept e.worker_result_id f.worker_result_id
  pub candidate_id : Kept e.candidate_id f.candidate_id
  pub integration_result_id : Kept e.integration_result_id f.integration_result_id

Advances-Kept : {o : Option String} {v : Value} {n : Option String} → Advances o v n → Kept o n
Advances-Kept keep s h = h
Advances-Kept (fill k) s h = cc
Advances-Kept (repeat k) s h = h

AdvancesAll-KeptAll : {e : Evidence} {p : Supplied} {f : Evidence} → AdvancesAll e p f → KeptAll e f
AdvancesAll-KeptAll a = record {
  session_id = Advances-Kept a.session_id;
  worker_request_id = Advances-Kept a.worker_request_id;
  worker_result_id = Advances-Kept a.worker_result_id;
  candidate_id = Advances-Kept a.candidate_id;
  integration_result_id = Advances-Kept a.integration_result_id;
}

KeptAll-trans : {e f g : Evidence} → KeptAll e f → KeptAll f g → KeptAll e g
KeptAll-trans a b = record {
  session_id = λ s h. b.session_id s (a.session_id s h);
  worker_request_id = λ s h. b.worker_request_id s (a.worker_request_id s h);
  worker_result_id = λ s h. b.worker_result_id s (a.worker_result_id s h);
  candidate_id = λ s h. b.candidate_id s (a.candidate_id s h);
  integration_result_id = λ s h. b.integration_result_id s (a.integration_result_id s h);
}

no_evidence-IsRecorded : IsRecorded no_evidence
unfolding require_optional_identifier
no_evidence-IsRecorded = record {
  session_id = refl;
  worker_request_id = refl;
  worker_result_id = refl;
  candidate_id = refl;
  integration_result_id = refl;
}

requested_blank : validate_state_invariants requested no_evidence ≡ ok tt
unfolding validate_state_invariants
requested_blank = refl

-- how many transitions may still follow
abbrev left : State → ℕ
left requested = 2
left running = 1
left _ = 0

left_falls : {a b : State} → a ⟶ b → left b + 1 ≤ left a
left_falls start = omega arith
left_falls refuse = omega arith
left_falls _ = omega arith

module _ (H : Sha256) where
  -- `n` transitions that did not raise
  pub data Chain (l : Lifecycle) : ℕ → Lifecycle → Type 0 where
    here : Chain l zero l
    next :
        {n : ℕ} {u w : Lifecycle} (s : State) (p : Supplied)
        → Chain l n u
        → transition_lab_coding_job_lifecycle H u s p ≡ ok w
        → Chain l (suc n) w

  pub record SameJob (l u : Lifecycle) : Type 0 where
    pub job_id : u.job_id ≡ l.job_id
    pub request_id : u.request_id ≡ l.request_id
    pub run_id : u.run_id ≡ l.run_id
    pub kept : KeptAll l.evidence u.evidence

  successor-SameJob :
      (l : Lifecycle) (s : State) (e : Evidence)
      → KeptAll l.evidence e
      → SameJob l (successor H l s e)
  unfolding successor
  successor-SameJob l s e k = record { job_id = refl; request_id = refl; run_id = refl; kept = k }

  transition-SameJob :
      (l : Lifecycle) (s : State) (p : Supplied) (u : Lifecycle)
      → transition_lab_coding_job_lifecycle H l s p ≡ ok u
      → SameJob l u
  transition-SameJob l s p u h =
      let k = transition-Succeeds H l s p u h in
      subst (λ x. SameJob l x) (sym k.result)
        (successor-SameJob l s u.evidence (AdvancesAll-KeptAll k.advances))

  -- Through any number of transitions the job, the request and the run stay the same, and an
  -- identifier that was recorded is never lost or changed.
  pub Chain-SameJob : {l u : Lifecycle} {n : ℕ} → Chain l n u → SameJob l u
  Chain-SameJob here = record {
    job_id = refl;
    request_id = refl;
    run_id = refl;
    kept = record {
      session_id = λ s h. h;
      worker_request_id = λ s h. h;
      worker_result_id = λ s h. h;
      candidate_id = λ s h. h;
      integration_result_id = λ s h. h;
    };
  }
  Chain-SameJob (next {u = u} {w = w} s p c h) =
      let a = Chain-SameJob c in
      let b = transition-SameJob u s p w h in
      record {
        job_id = b.job_id ∙ a.job_id;
        request_id = b.request_id ∙ a.request_id;
        run_id = b.run_id ∙ a.run_id;
        kept = KeptAll-trans a.kept b.kept;
      }

  Chain-left : {l u : Lifecycle} {n : ℕ} → Chain l n u → left u.state + n ≤ left l.state
  Chain-left here = omega arith
  Chain-left (next {u = u} {w = w} s p c h) =
      let k = transition-Succeeds H u s p w h in
      omega (arith, Chain-left c, left_falls k.step, ap left (state-Succeeds H k))

  left-le-two : (s : State) → left s ≤ 2
  left-le-two requested = omega arith
  left-le-two _ = omega arith

  -- From any snapshot of a job at most two transitions follow one another.
  pub Chain-bounded : {l u : Lifecycle} {n : ℕ} → Chain l n u → n ≤ 2
  Chain-bounded {l} c = omega (arith, Chain-left c, left-le-two l.state)

  built-IsValid :
      (request_id run_id : String)
      → require_identifier "request_id" (text request_id) ≡ ok request_id
      → require_identifier "run_id" (text run_id) ≡ ok run_id
      → IsValid H
          (snapshot H (job_identity H request_id run_id) request_id run_id requested no_evidence)
  unfolding snapshot job_identity snapshot_identity
  built-IsValid request_id run_id hr hs = record {
    component = eq_refl lifecycle_component;
    schema_version = refl;
    job_id = hex_of_identity H _ _ _;
    snapshot_id = hex_of_identity H _ _ _;
    request_id = hr;
    run_id = hs;
    recorded = IsRecorded-require no_evidence no_evidence-IsRecorded;
    job_binding = eq_refl _;
    invariants = requested_blank;
    snapshot_binding = eq_refl _;
  }

  -- Two identifiers of the right form always give a lifecycle: the REQUESTED snapshot with no
  -- evidence, bound to both.
  pub lifecycle_build_total :
      (request_id run_id : String)
      → require_identifier "request_id" (text request_id) ≡ ok request_id
      → require_identifier "run_id" (text run_id) ≡ ok run_id
      → build_lab_coding_job_lifecycle H (text request_id) (text run_id)
        ≡ ok (snapshot H (job_identity H request_id run_id) request_id run_id requested no_evidence)
  unfolding build_lab_coding_job_lifecycle
  lifecycle_build_total request_id run_id hr hs =
      rw (hr, hs) (IsValid-validate H _ (built-IsValid request_id run_id hr hs))
