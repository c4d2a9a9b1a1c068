-- ===== src/Lifecycle/Facts.antt =====
-- What a validated lifecycle satisfies, and the rules of its states.
use hands_free_auto_lab_port.Prelude.{
  String, ap, ◌∙◌, ◌≡◌, ◌≢◌, refl, true, Option, none, eqb_ℤ, Result, ok, >>=-eq-ok, Result-cases,
  inl, inr, str_eq, arith,
}
use hands_free_auto_lab_port.Checks.{text, optional_text, Sha256}
use hands_free_auto_lab_port.Lifecycle.Types.{
  State, requested, running, completed, failed, timed_out, is_known_state, allowed_state_transition,
  Evidence, Lifecycle, lifecycle_component, lifecycle_schema_version,
}
use hands_free_auto_lab_port.Lifecycle.Validate.{
  require_identifier, require_optional_identifier, require_evidence, validate_state_invariants,
  job_identity, snapshot_identity, validate_lab_coding_job_lifecycle,
}

infix 40 ◌⟶◌
-- Which state may follow which.
pub data ◌⟶◌ : State → State → Type 0 where
  start : requested ⟶ running
  refuse : requested ⟶ failed
  complete : running ⟶ completed
  fail : running ⟶ failed
  time_out : running ⟶ timed_out

pub allowed-⟶ : (s u : State) → allowed_state_transition s u ≡ true → s ⟶ u
unfolding allowed_state_transition
allowed-⟶ s u h = grind (arith, start, refuse, complete, fail, time_out)

pub ⟶-allowed : {s u : State} → s ⟶ u → allowed_state_transition s u ≡ true
unfolding allowed_state_transition
⟶-allowed start = refl
⟶-allowed _ = refl

-- The evidence that a state requires and that it excludes.
pub record Holds (s : State) (e : Evidence) : Type 0 where
  pub known : is_known_state s ≡ true
  pub request_in_session : e.session_id ≡ none → e.worker_request_id ≡ none
  pub result_of_request : e.worker_request_id ≡ none → e.worker_result_id ≡ none
  pub requested_blank : s ≡ requested → e.session_id ≡ none
  pub session_needed : s ≢ requested → s ≢ failed → e.session_id ≢ none
  pub result_needed : s ≡ completed → e.worker_result_id ≢ none
  pub running_open : s ≡ running → e.worker_result_id ≡ none
  pub candidate_needed : s ≡ completed → (e.candidate_id ≢ none) × (e.integration_result_id ≢ none)
  pub candidate_excluded :
      s ≢ completed → (e.candidate_id ≡ none) × (e.integration_result_id ≡ none)

pub validate_state_invariants-Holds :
    (s : State) (e : Evidence) → validate_state_invariants s e ≡ ok tt → Holds s e
unfolding validate_state_invariants
validate_state_invariants-Holds requested e h = ground arith
validate_state_invariants-Holds running e h = ground arith
validate_state_invariants-Holds completed e h = ground arith
validate_state_invariants-Holds s e h = ground arith

pub Holds-validate_state_invariants :
    (s : State) (e : Evidence) → Holds s e → validate_state_invariants s e ≡ ok tt
unfolding validate_state_invariants
Holds-validate_state_invariants requested e h = ground arith
Holds-validate_state_invariants running e h = ground arith
Holds-validate_state_invariants completed e h = ground arith
Holds-validate_state_invariants s e h = ground arith

-- the check of five identifiers that are recorded already
abbrev pub require_recorded : Evidence → Result Evidence
require_recorded e =
    require_evidence (optional_text e.session_id) (optional_text e.worker_request_id)
      (optional_text e.worker_result_id) (optional_text e.candidate_id)
      (optional_text e.integration_result_id)

optional_same :
    (name : String) (o : Option String) {v : Option String}
    → require_optional_identifier name (optional_text o) ≡ ok v
    → v ≡ o
unfolding require_optional_identifier
optional_same name o h = ground arith

pub record IsRecorded (e : Evidence) : Type 0 where
  pub session_id :
      require_optional_identifier "session_id" (optional_text e.session_id) ≡ ok e.session_id
  pub worker_request_id :
      require_optional_identifier "worker_request_id" (optional_text e.worker_request_id)
      ≡ ok e.worker_request_id
  pub worker_result_id :
      require_optional_identifier "worker_result_id" (optional_text e.worker_result_id)
      ≡ ok e.worker_result_id
  pub candidate_id :
      require_optional_identifier "candidate_id" (optional_text e.candidate_id) ≡ ok e.candidate_id
  pub integration_result_id :
      require_optional_identifier "integration_result_id" (optional_text e.integration_result_id)
      ≡ ok e.integration_result_id

pub IsRecorded-require : (e : Evidence) → IsRecorded e → require_recorded e ≡ ok e
unfolding require_evidence
IsRecorded-require e r =
    rw (
      r.session_id, r.worker_request_id, r.worker_result_id, r.candidate_id,
      r.integration_result_id,
    )

pub require-IsRecorded :
    (e : Evidence) {x : Evidence} → require_recorded e ≡ ok x → (x ≡ e) × IsRecorded e
unfolding require_evidence
require-IsRecorded e h =
    let (a, ea, h₁) =
      >>=-eq-ok (require_optional_identifier "session_id" (optional_text e.session_id)) _ h in
    let (b, eb, h₂) =
      >>=-eq-ok
        (require_optional_identifier "worker_request_id" (optional_text e.worker_request_id)) _
        h₁ in
    let (c, ec, h₃) =
      >>=-eq-ok (require_optional_identifier "worker_result_id" (optional_text e.worker_result_id))
        _ h₂ in
    let (d, ed, h₄) =
      >>=-eq-ok (require_optional_identifier "candidate_id" (optional_text e.candidate_id)) _ h₃ in
    let (f, ef, h₅) =
      >>=-eq-ok
        (require_optional_identifier "integration_result_id"
          (optional_text e.integration_result_id))
        _ h₄ in
    let sa = optional_same _ e.session_id ea in
    let sb = optional_same _ e.worker_request_id eb in
    let sc = optional_same _ e.worker_result_id ec in
    let sd = optional_same _ e.candidate_id ed in
    let sf = optional_same _ e.integration_result_id ef in
    (
      cc,
      record {
        session_id = ea ∙ ap ok sa;
        worker_request_id = eb ∙ ap ok sb;
        worker_result_id = ec ∙ ap ok sc;
        candidate_id = ed ∙ ap ok sd;
        integration_result_id = ef ∙ ap ok sf;
      },
    )

module _ (H : Sha256) where
  pub record IsValid (l : Lifecycle) : Type 0 where
    pub component : str_eq l.component lifecycle_component ≡ true
    pub schema_version : eqb_ℤ l.schema_version lifecycle_schema_version ≡ true
    pub job_id : require_identifier "job_id" (text l.job_id) ≡ ok l.job_id
    pub snapshot_id : require_identifier "snapshot_id" (text l.snapshot_id) ≡ ok l.snapshot_id
    pub request_id : require_identifier "request_id" (text l.request_id) ≡ ok l.request_id
    pub run_id : require_identifier "run_id" (text l.run_id) ≡ ok l.run_id
    pub recorded : require_recorded l.evidence ≡ ok l.evidence
    pub job_binding : str_eq l.job_id (job_identity H l.request_id l.run_id) ≡ true
    pub invariants : validate_state_invariants l.state l.evidence ≡ ok tt
    pub snapshot_binding :
        str_eq l.snapshot_id (snapshot_identity H l.job_id l.request_id l.run_id l.state l.evidence)
        ≡ true

  pub IsValid-validate : (l : Lifecycle) → IsValid l → validate_lab_coding_job_lifecycle H l ≡ ok l
  unfolding validate_lab_coding_job_lifecycle
  IsValid-validate l v = ground arith

  pub validate-IsValid :
      (l : Lifecycle) {u : Lifecycle}
      → validate_lab_coding_job_lifecycle H l ≡ ok u
      → (u ≡ l) × IsValid l
  unfolding validate_lab_coding_job_lifecycle require_identifier
  validate-IsValid l h = elim (Result-cases (require_recorded l.evidence)) [
    | inl (e, q) ↦ ground (arith, (require-IsRecorded l.evidence q).0)
    | inr (x, q) ↦ ground arith
  ]
