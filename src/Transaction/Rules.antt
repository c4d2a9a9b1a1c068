-- ===== src/Transaction/Rules.antt =====
-- The rules of lab_promotion_transaction_state.py as relations: which state may follow which, how
-- the progress of a file may move, and what each state says of its files.
use hands_free_auto_lab_port.Prelude.{
  String, Bool-cases, inl, inr, ◌≡◌, refl, ap, ◌⊎◌, true, false, List, [], ◌∷◌, map, All, some,
  lookup, ok, any, not, arith, eq_iff,
}
use hands_free_auto_lab_port.Transaction.Types.{
  is_known_state, State, prepared, applying, verifying, completed, rolling_back, rolled_back,
  recovery_required, Progress, pending, installed, verified, restored, is_known_progress,
  allowed_state_transition, TransactionFile,
}
use hands_free_auto_lab_port.Transaction.Validate.{permits, validate_state_invariants}
use hands_free_auto_lab_port.Transaction.Transition.{same_progress, check_progress}

-- The states that a transaction can still leave.
pub data IsActive : State → Type 0 where
  prepared_active : IsActive prepared
  applying_active : IsActive applying
  verifying_active : IsActive verifying
  rolling_back_active : IsActive rolling_back

infix 40 ◌⟶◌ ◌⇝◌
pub data ◌⟶◌ : State → State → Type 0 where
  start : prepared ⟶ applying
  apply_more : applying ⟶ applying
  applied : applying ⟶ verifying
  verify_more : verifying ⟶ verifying
  complete : verifying ⟶ completed
  undo_applying : applying ⟶ rolling_back
  undo_verifying : verifying ⟶ rolling_back
  undo_more : rolling_back ⟶ rolling_back
  undone : rolling_back ⟶ rolled_back
  give_up : {s : State} → IsActive s → s ⟶ recovery_required

-- The progress of one file in one transition.
pub data ◌⇝◌ : Progress → Progress → Type 0 where
  stay : {p : Progress} → is_known_progress p ≡ true → p ⇝ p
  install : pending ⇝ installed
  verify : installed ⇝ verified
  restore_installed : installed ⇝ restored
  restore_verified : verified ⇝ restored

-- What a state says of the progress of each of its files.
abbrev pub Permitted : State → Progress → Type 0
Permitted prepared p = p ≡ pending
Permitted applying p = (p ≡ pending) ⊎ (p ≡ installed)
Permitted verifying p = (p ≡ installed) ⊎ (p ≡ verified)
Permitted completed p = p ≡ verified
Permitted rolled_back p = (p ≡ pending) ⊎ (p ≡ restored)
Permitted rolling_back p = is_known_progress p ≡ true
Permitted recovery_required p = is_known_progress p ≡ true
Permitted (State.unknown _) p = ⊥

-- Files before and after one transition: only the progress moves, as the mapping says.
pub data Updates (progress_by_path : List (String × Progress))
    : List TransactionFile → List TransactionFile → Type 0 where
  done : Updates progress_by_path [] []
  update :
      {f : TransactionFile} {fs gs : List TransactionFile} (p : Progress)
      → lookup f.path progress_by_path ≡ some p
      → f.progress ⇝ p
      → Updates progress_by_path fs gs
      → Updates progress_by_path (f ∷ fs) (record f { progress = p } ∷ gs)

ruleset edges = (
  start, apply_more, applied, verify_more, complete, undo_applying, undo_verifying, undo_more,
  undone, give_up, prepared_active, applying_active, verifying_active, rolling_back_active,
)

pub allowed-⟶ : (s u : State) → allowed_state_transition s u ≡ true → s ⟶ u
unfolding allowed_state_transition
allowed-⟶ s u h = grind (arith, edges)

pub ⟶-allowed : {s u : State} → s ⟶ u → allowed_state_transition s u ≡ true
unfolding allowed_state_transition
⟶-allowed start = refl
⟶-allowed (give_up prepared_active) = refl
⟶-allowed (give_up applying_active) = refl
⟶-allowed (give_up verifying_active) = refl
⟶-allowed (give_up rolling_back_active) = refl
⟶-allowed _ = refl

pub same_progress-eq : (p q : Progress) → same_progress p q ≡ true → p ≡ q
unfolding same_progress
same_progress-eq (Progress.unknown s) (Progress.unknown t) h =
    ap Progress.unknown ((eq_iff s t).0 h)
same_progress-eq _ q h = ground arith

pub same_progress_self : (p : Progress) → same_progress p p ≡ true
unfolding same_progress
same_progress_self (Progress.unknown s) = (eq_iff s s).1 refl
same_progress_self _ = refl

module _ (path : String) where
  pub check_progress-⇝ : (p q : Progress) → check_progress path p q ≡ ok tt → p ⇝ q
  unfolding check_progress
  check_progress-⇝ pending pending h = stay refl
  check_progress-⇝ installed installed h = stay refl
  check_progress-⇝ verified verified h = stay refl
  check_progress-⇝ restored restored h = stay refl
  check_progress-⇝ pending installed h = install
  check_progress-⇝ installed verified h = verify
  check_progress-⇝ installed restored h = restore_installed
  check_progress-⇝ verified restored h = restore_verified
  check_progress-⇝ (Progress.unknown s) (Progress.unknown t) h = cc
  check_progress-⇝ _ _ h = cc

  pub ⇝-check_progress : {p q : Progress} → p ⇝ q → check_progress path p q ≡ ok tt
  unfolding check_progress
  ⇝-check_progress (stay {p = q} k) = rw same_progress_self (rw k)
  ⇝-check_progress install = refl
  ⇝-check_progress _ = refl

permits_known-Permitted :
    (s : State) (p : Progress)
    → is_known_state s ≡ true
    → is_known_progress p ≡ true
    → permits s p ≡ true
    → Permitted s p
unfolding permits
permits_known-Permitted rolling_back p ks kp h = kp
permits_known-Permitted s p ks kp h = ground arith

pub Permitted-permits :
    (s : State) (p : Progress) → Permitted s p → (is_known_progress p ≡ true) × (permits s p ≡ true)
unfolding permits
Permitted-permits rolling_back p h = (h, refl)
Permitted-permits s p h = ground arith

-- The files satisfy what a state says of them.
abbrev pub Holds : State → List TransactionFile → Type 0
Holds s fs = (is_known_state s ≡ true) × All (λ (f : TransactionFile). Permitted s f.progress) fs

marks : List TransactionFile → List Progress
marks = map (λ (f : TransactionFile). f.progress)

tests-All :
    (s : State) (fs : List TransactionFile)
    → is_known_state s ≡ true
    → any (λ p. not (is_known_progress p)) (marks fs) ≡ false
    → any (λ p. not (permits s p)) (marks fs) ≡ false
    → All (λ (f : TransactionFile). Permitted s f.progress) fs
unfolding any marks
tests-All s [] k h₁ h₂ = tt
tests-All s (f ∷ fs) k h₁ h₂ = (
  permits_known-Permitted s f.progress k (ground arith) (ground arith),
  tests-All s fs k (ground arith) (ground arith),
)

All-tests :
    (s : State) (fs : List TransactionFile)
    → All (λ (f : TransactionFile). Permitted s f.progress) fs
    → (any (λ p. not (is_known_progress p)) (marks fs) ≡ false)
      × (any (λ p. not (permits s p)) (marks fs) ≡ false)
unfolding any marks
All-tests s [] h = (refl, refl)
All-tests s (f ∷ fs) h = ground (arith, All-tests s fs h.1, Permitted-permits s f.progress h.0)

-- `_validate_state_invariants` accepts exactly the files that the state allows.
pub validate_state_invariants-Holds :
    (s : State) (fs : List TransactionFile) → validate_state_invariants s fs ≡ ok tt → Holds s fs
unfolding validate_state_invariants marks
validate_state_invariants-Holds s fs h = elim (Bool-cases (is_known_state s)) [
  | inl k ↦ (k, tests-All s fs k (ground arith) (ground arith))
  | inr u ↦ ground arith
]

pub Holds-validate_state_invariants :
    (s : State) (fs : List TransactionFile) → Holds s fs → validate_state_invariants s fs ≡ ok tt
unfolding validate_state_invariants marks
Holds-validate_state_invariants s fs h = ground (arith, All-tests s fs h.1)
