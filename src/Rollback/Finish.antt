-- ===== src/Rollback/Finish.antt =====
-- Plans with nothing left to do, which `_require_finish_ready` asks for
-- (src/hands_free_auto_lab/lab_promotion_rollback_executor.py), and the end of the rollback.
use mathlib.Core.Path.{subst}
use hands_free_auto_lab_port.Prelude.{Result-cases, raise_if-ok, length, ◌==◌, str_eq, eqb_ℤ}
use hands_free_auto_lab_port.Checks.{is_hex}
use hands_free_auto_lab_port.Transaction.Facts.{IsValid-validate}
use hands_free_auto_lab_port.Transaction.Rules.{◌⟶◌}
use hands_free_auto_lab_port.Rollback.Types.{
  applied_target_component, applied_target_schema_version,
}
use hands_free_auto_lab_port.Rollback.Plan.{is_plannable}
use hands_free_auto_lab_port.Rollback.Build.{check_identity_pairs}
use hands_free_auto_lab_port.Prelude.{
  ◌≡◌, refl, sym, ap, ◌∙◌, inl, inr, true, not, List, [], ◌∷◌, ◌++◌, All, ok, >>=-eq-ok,
  ok-injective, raise_if, arith,
}
use hands_free_auto_lab_port.Checks.{Sha256}
use hands_free_auto_lab_port.Transaction.Types.{
  State, rolling_back, rolled_back, TransactionFile, Transaction,
}
use hands_free_auto_lab_port.Transaction.Validate.{validate_lab_promotion_transaction}
use hands_free_auto_lab_port.Transaction.Transition.{
  successor, transition_lab_promotion_transaction,
}
use hands_free_auto_lab_port.Transaction.Facts.{IsValid, validate-IsValid}
use hands_free_auto_lab_port.Transaction.Rules.{undone, Permitted}
use hands_free_auto_lab_port.Transaction.Unchanged.{progress_of, unchanged_total}
use hands_free_auto_lab_port.Rollback.Types.{
  finish_rollback, Step, AppliedFile, Inspection, RollbackPlan,
}
use hands_free_auto_lab_port.Rollback.Plan.{
  make_bare_step, plan_file, plan_files, check_same_file, enter_steps,
}
use hands_free_auto_lab_port.Rollback.Build.{build_lab_promotion_rollback_plan, rollback_plan}
use hands_free_auto_lab_port.Rollback.Resume.{plan_file-nil}

append_nil : (xs ys : List Step) → xs ++ ys ≡ [] → (xs ≡ []) × (ys ≡ [])
append_nil [] ys h = (refl, h)
append_nil (x ∷ xs) ys h = cc

append_one : (x : Step) (xs : List Step) → xs ++ (x ∷ []) ≡ x ∷ [] → xs ≡ []
append_one x [] h = refl
append_one x (y ∷ xs) h =
    let e : xs ++ (x ∷ []) ≡ [] = cc in let (_, no_end) = append_nil xs (x ∷ []) e in cc no_end

-- No steps for any file: every file is PENDING or RESTORED.
plan_files-nil :
    (fs : List TransactionFile) (gs : List AppliedFile) {steps : List Step}
    → plan_files rolling_back fs gs ≡ ok steps
    → steps ≡ []
    → All (λ (f : TransactionFile). Permitted rolled_back f.progress) fs
unfolding plan_files
plan_files-nil [] gs h e = tt
plan_files-nil (f ∷ fs) [] h e = cc
plan_files-nil (f ∷ fs) (g ∷ gs) h e =
    let (_, _, h₁) = >>=-eq-ok (check_same_file f g) _ h in
    let (xs, ex, h₂) =
      >>=-eq-ok
        (plan_file f.path f.operation rolling_back f.progress g.destination.status
          g.temporary.status)
        _ h₁ in
    let (ys, ey, h₃) = >>=-eq-ok (plan_files rolling_back fs gs) _ h₂ in
    let (nx, ny) = append_nil xs ys (ok-injective h₃ ∙ e) in
    (
      (plan_file-nil f.path f.operation
          (record {
            progress = f.progress;
            destination = g.destination.status;
            temporary = g.temporary.status;
          })
          (ex ∙ ap ok nx)).progress,
      plan_files-nil fs gs ey ny,
    )

module _ (H : Sha256) where
  -- What a plan that was built is made of.
  pub record Built (t : Transaction) (i : Inspection) (plan : RollbackPlan) : Type 0 where
    pub valid : IsValid H t
    pub plannable : is_plannable t.state ≡ true
    pub same_evidence : check_identity_pairs t i ≡ ok tt
    pub steps : List Step
    pub planned : plan_files t.state t.files i.files ≡ ok steps
    pub result :
        plan
        ≡ rollback_plan H t i.materials_id
            (enter_steps t.state ++ (steps ++ (make_bare_step finish_rollback ∷ [])))

  pub build-Built :
      (t : Transaction) (i : Inspection) {plan : RollbackPlan}
      → build_lab_promotion_rollback_plan H t i ≡ ok plan
      → Built t i plan
  unfolding build_lab_promotion_rollback_plan
  build-Built t i h = elim (Result-cases (validate_lab_promotion_transaction H t)) [
    | inl (c, ec) ↦
        let v = (validate-IsValid H t ec).1 in
        let h₀ = rw (IsValid-validate H t v) at h in
        let (_, state, h₁) = >>=-eq-ok (raise_if (not (is_plannable t.state)) _) _ h₀ in
        let (_, _, h₂) =
          >>=-eq-ok (raise_if (not (str_eq i.component applied_target_component)) _) _ h₁ in
        let (_, _, h₃) =
          >>=-eq-ok (raise_if (not (eqb_ℤ i.schema_version applied_target_schema_version)) _) _
            h₂ in
        let (_, _, h₄) = >>=-eq-ok (raise_if (not (is_hex 64 i.materials_id)) _) _ h₃ in
        let (_, pairs, h₅) = >>=-eq-ok (check_identity_pairs t i) _ h₄ in
        let (_, _, h₆) = >>=-eq-ok (raise_if (not (length i.files == length t.files)) _) _ h₅ in
        let (steps, planned, h₇) = >>=-eq-ok (plan_files t.state t.files i.files) _ h₆ in
        record {
          valid = v;
          plannable = raise_if-ok _ _ state;
          same_evidence = pairs;
          steps = steps;
          planned = planned;
          result = sym (ok-injective h₇);
        }
    | inr (x, ex) ↦ absurd (let bad = rw ex at h in cc bad)
  ]

  steps-Built :
      {t : Transaction} {i : Inspection} {plan : RollbackPlan} (b : Built t i plan)
      → plan.steps ≡ enter_steps t.state ++ (b.steps ++ (make_bare_step finish_rollback ∷ []))
  unfolding rollback_plan
  steps-Built b = ap (λ (p : RollbackPlan). p.steps) b.result

  enter_steps-rolling_back : (s : State) → s ≡ rolling_back → enter_steps s ≡ []
  unfolding enter_steps
  enter_steps-rolling_back s e = ground arith

  -- If planning anew in ROLLING_BACK gives the step FINISH_ROLLBACK alone, the transition to
  -- ROLLED_BACK with the recorded progress succeeds.
  pub finish_accepted :
      (t : Transaction) (i : Inspection) {plan : RollbackPlan}
      → build_lab_promotion_rollback_plan H t i ≡ ok plan
      → t.state ≡ rolling_back
      → plan.steps ≡ make_bare_step finish_rollback ∷ []
      → transition_lab_promotion_transaction H t rolled_back (progress_of t.files)
        ≡ ok (successor H t rolled_back t.files)
  finish_accepted t i h e one =
      let b = build-Built t i h in
      let all_steps = sym (steps-Built b) ∙ one in
      let only = rw (enter_steps-rolling_back t.state e) at all_steps in
      let none_left = append_one (make_bare_step finish_rollback) b.steps only in
      let planned = subst (λ s. plan_files s t.files i.files ≡ ok b.steps) e b.planned in
      unchanged_total H t b.valid rolled_back (subst (λ s. s ⟶ rolled_back) (sym e) undone)
        (refl, plan_files-nil t.files i.files planned none_left)
