-- ===== src/Rollback/Build.antt =====
-- The whole plan (`build_lab_promotion_rollback_plan` of lab_promotion_rollback_plan.py).
use hands_free_auto_lab_port.Prelude.{
  String, not, List, [], ◌∷◌, ◌++◌, eqb_ℤ, Result, ok, err, raise_if, ◌>>=◌, ◌>>◌, str_eq, length,
  ◌==◌,
}
use hands_free_auto_lab_port.Json.{Json, object_of}
use hands_free_auto_lab_port.Checks.{Sha256, is_hex}
use hands_free_auto_lab_port.Proposal.{identity}
use hands_free_auto_lab_port.Transaction.Types.{State, state_name, Transaction}
use hands_free_auto_lab_port.Transaction.Validate.{validate_lab_promotion_transaction}
use hands_free_auto_lab_port.Rollback.Types.{
  finish_rollback, Step, RollbackPlan, Inspection, applied_target_component,
  applied_target_schema_version, rollback_plan_component, rollback_plan_schema_version,
}
use hands_free_auto_lab_port.Rollback.Plan.{
  error, make_bare_step, plan_files, enter_steps, is_plannable, step_objects,
}

unfoldable pub plan_identity_object : String → String → String → String → State → List Step → Json
unfolding state_name step_objects
plan_identity_object transaction_id snapshot_id materials_id repository_path source_state steps =
    object_of (
      ("component", Json.text rollback_plan_component)
      ∷ ("schema_version", Json.integer rollback_plan_schema_version)
      ∷ ("transaction_id", Json.text transaction_id)
      ∷ ("snapshot_id", Json.text snapshot_id)
      ∷ ("materials_id", Json.text materials_id)
      ∷ ("repository_path", Json.text repository_path)
      ∷ ("source_state", Json.text (state_name source_state))
      ∷ ("steps", Json.array (step_objects steps))
      ∷ [])

abbrev pub plan_id_domain : String
plan_id_domain = "hands-free-auto-lab-promotion-rollback-plan-id-v1"

-- the exceptions of the validation are raised anew as a `LabPromotionRollbackPlanError`
unfoldable pub or_plan_error : Result Transaction → Result Transaction
or_plan_error (ok t) = ok t
or_plan_error (err e) = err (error "" "transaction validation failed")

-- the comparison of `identity_pairs`
unfoldable pub check_identity_pairs : Transaction → Inspection → Result (Unit {0})
check_identity_pairs t i = do
  raise_if (not (str_eq i.transaction_id t.transaction_id))
      (error "transaction_id" "applied-target mismatch")
  raise_if (not (str_eq i.snapshot_id t.snapshot_id))
      (error "snapshot_id" "applied-target mismatch")
  raise_if (not (str_eq i.repository_path t.repository_path))
      (error "repository_path" "applied-target mismatch")
  raise_if (not (eqb_ℤ i.repository_device t.repository_device))
      (error "repository_device" "applied-target mismatch")
  raise_if (not (eqb_ℤ i.repository_inode t.repository_inode))
      (error "repository_inode" "applied-target mismatch")
  raise_if (not (str_eq i.branch t.branch)) (error "branch" "applied-target mismatch")
  raise_if (not (str_eq i.head t.head)) (error "head" "applied-target mismatch")

module _ (H : Sha256) where
  unfoldable pub rollback_plan : Transaction → String → List Step → RollbackPlan
  rollback_plan t materials_id steps = record {
    component = rollback_plan_component;
    schema_version = rollback_plan_schema_version;
    plan_id = identity H plan_id_domain (
        plan_identity_object t.transaction_id t.snapshot_id materials_id t.repository_path t.state
          steps);
    transaction_id = t.transaction_id;
    snapshot_id = t.snapshot_id;
    materials_id = materials_id;
    repository_path = t.repository_path;
    source_state = t.state;
    steps = steps;
  }

  unfoldable pub build_lab_promotion_rollback_plan : Transaction → Inspection → Result RollbackPlan
  unfolding rollback_plan or_plan_error
  build_lab_promotion_rollback_plan transaction i = do
    t ← or_plan_error (validate_lab_promotion_transaction H transaction)
    raise_if (not (is_plannable t.state))
        (error "" "rollback planning requires APPLYING, VERIFYING, or ROLLING_BACK transaction")
    raise_if (not (str_eq i.component applied_target_component))
        (error "" "applied-target component mismatch")
    raise_if (not (eqb_ℤ i.schema_version applied_target_schema_version))
        (error "" "applied-target schema version mismatch")
    raise_if (not (is_hex 64 i.materials_id))
        (error "materials_id" "must be a lowercase 64-character hex identifier")
    check_identity_pairs t i
    raise_if (not (length i.files == length t.files))
        (error "" "transaction/applied-target file count mismatch")
    steps ← plan_files t.state t.files i.files
    ok (
        rollback_plan t i.materials_id
          (enter_steps t.state ++ (steps ++ (make_bare_step finish_rollback ∷ []))))
