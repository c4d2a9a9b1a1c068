-- ===== src/Rollback/Types.antt =====
-- Steps, plans, and the inspection that a plan is made from (lab_promotion_rollback_plan.py, and
-- the records of lab_promotion_applied_target.py and lab_promotion_prepared_target.py).
use hands_free_auto_lab_port.Prelude.{String, Option, List, ℤ, pos}
use hands_free_auto_lab_port.Proposal.{Operation}
use hands_free_auto_lab_port.Transaction.Types.{State, Progress}

-- `DESTINATION_STATES`: what stands at a file's path. `unknown` is any other string.
pub data Destination : Type 0 where
  before after other : Destination
  unknown : String → Destination

-- `TEMP_STATES`: what stands at the path of a file's temporary. `unknown` is any other string.
pub data Temporary : Type 0 where
  absent exact_temp unexpected_temp : Temporary
  unknown : String → Temporary

-- `ROLLBACK_STEP_KINDS`
pub data StepKind : Type 0 where
  enter_rollback reconcile_installed remove_exact_temp restore_preimage : StepKind
  remove_added_file mark_restored finish_rollback : StepKind

-- `LabPromotionRollbackStep`
pub record Step : Type 0 where
  pub kind : StepKind
  pub path : Option String
  pub operation : Option Operation
  pub expected_progress : Option Progress
  pub expected_destination : Option Destination
  pub expected_temporary : Option Temporary

-- `LabPromotionRollbackPlan`
pub record RollbackPlan : Type 0 where
  pub component : String
  pub schema_version : ℤ
  pub plan_id : String
  pub transaction_id : String
  pub snapshot_id : String
  pub materials_id : String
  pub repository_path : String
  pub source_state : State
  pub steps : List Step

-- `LabPromotionAppliedDestination`, as far as plans read it
pub record AppliedDestination : Type 0 where
  pub path : String
  pub operation : Operation
  pub journal_progress : Progress
  pub status : Destination

-- `LabPromotionPreparedTemp`, as far as plans read it
pub record PreparedTemp : Type 0 where
  pub path : String
  pub status : Temporary

-- `LabPromotionAppliedFile`
pub record AppliedFile : Type 0 where
  pub path : String
  pub operation : Operation
  pub journal_progress : Progress
  pub destination : AppliedDestination
  pub temporary : PreparedTemp

-- `LabPromotionAppliedTargetInspection`
pub record Inspection : Type 0 where
  pub component : String
  pub schema_version : ℤ
  pub transaction_id : String
  pub snapshot_id : String
  pub materials_id : String
  pub repository_path : String
  pub repository_device : ℤ
  pub repository_inode : ℤ
  pub branch : String
  pub head : String
  pub files : List AppliedFile

abbrev pub applied_target_component : String
applied_target_component = "hands-free-auto-lab-promotion-applied-target-v1"

abbrev pub applied_target_schema_version : ℤ
applied_target_schema_version = pos 1

abbrev pub rollback_plan_component : String
rollback_plan_component = "hands-free-auto-lab-promotion-rollback-plan-v1"

abbrev pub rollback_plan_schema_version : ℤ
rollback_plan_schema_version = pos 1

unfoldable pub step_kind_name : StepKind → String
step_kind_name enter_rollback = "ENTER_ROLLBACK"
step_kind_name reconcile_installed = "RECONCILE_INSTALLED"
step_kind_name remove_exact_temp = "REMOVE_EXACT_TEMP"
step_kind_name restore_preimage = "RESTORE_PREIMAGE"
step_kind_name remove_added_file = "REMOVE_ADDED_FILE"
step_kind_name mark_restored = "MARK_RESTORED"
step_kind_name finish_rollback = "FINISH_ROLLBACK"

unfoldable pub destination_name : Destination → String
destination_name before = "BEFORE"
destination_name after = "AFTER"
destination_name other = "OTHER"
destination_name (Destination.unknown s) = s

unfoldable pub temporary_name : Temporary → String
temporary_name absent = "ABSENT"
temporary_name exact_temp = "EXACT_TEMP"
temporary_name unexpected_temp = "UNEXPECTED_TEMP"
temporary_name (Temporary.unknown s) = s
