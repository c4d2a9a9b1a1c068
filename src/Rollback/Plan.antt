-- ===== src/Rollback/Plan.antt =====
-- Planning the rollback of each file, and the whole plan (lab_promotion_rollback_plan.py).
use hands_free_auto_lab_port.Prelude.{
  String, Bool, true, false, not, Option, none, some, List, [], ◌∷◌, ◌++◌, Error, raised,
  rollback_plan_error, Result, ok, err, raise_if, ◌>>=◌, ◌>>◌, str_eq,
}
use hands_free_auto_lab_port.Json.{Json, Items, nil, item, object_of}
use hands_free_auto_lab_port.Proposal.{
  Operation, add, modify, unsupported, operation_name, json_text,
}
use hands_free_auto_lab_port.Transaction.Types.{
  State, applying, verifying, rolling_back, Progress, pending, installed, verified, restored,
  progress_name, TransactionFile,
}
use hands_free_auto_lab_port.Transaction.Transition.{same_progress}
use hands_free_auto_lab_port.Rollback.Types.{
  Destination, before, after, other, Temporary, absent, exact_temp, unexpected_temp, StepKind,
  enter_rollback, reconcile_installed, remove_exact_temp, restore_preimage, remove_added_file,
  mark_restored, Step, AppliedFile, step_kind_name, destination_name, temporary_name,
}

abbrev pub error : String → String → Error
error = raised rollback_plan_error

-- `_make_step` with all keyword arguments; every kind of `StepKind` is a known one
unfoldable pub make_step : StepKind → String → Operation → Progress → Destination → Temporary → Step
make_step kind path operation progress destination temporary = record {
  kind = kind;
  path = some path;
  operation = some operation;
  expected_progress = some progress;
  expected_destination = some destination;
  expected_temporary = some temporary;
}

-- `_make_step(kind)`
unfoldable pub make_bare_step : StepKind → Step
make_bare_step kind = record {
  kind = kind;
  path = none;
  operation = none;
  expected_progress = none;
  expected_destination = none;
  expected_temporary = none;
}

unfoldable pub restore_step : String → Operation → Progress → Result Step
unfolding make_step
restore_step path modify progress =
    ok (make_step restore_preimage path modify progress after absent)
restore_step path add progress = ok (make_step remove_added_file path add progress after absent)
restore_step path (unsupported _) progress = err (error "" "unsupported promotion operation")

abbrev pub is_other : Destination → Bool
is_other other = true
is_other _ = false

abbrev pub is_unexpected : Temporary → Bool
is_unexpected unexpected_temp = true
is_unexpected _ = false

module _ (path : String) (operation : Operation) where
  -- the branch for `PROGRESS_PENDING`
  unfoldable pub plan_pending : Destination → Temporary → Result (List Step)
  unfolding make_step restore_step
  plan_pending before exact_temp =
      ok (make_step remove_exact_temp path operation pending before exact_temp ∷ [])
  plan_pending before absent = ok []
  plan_pending before _ = err (error path "unsupported pending temporary state")
  plan_pending after absent = do
    restore ← restore_step path operation installed
    ok (
        make_step reconcile_installed path operation pending after absent
        ∷ (restore ∷ (make_step mark_restored path operation installed before absent ∷ [])))
  plan_pending _ _ = err (error path "unsupported PENDING physical state")

  -- the branch for `PROGRESS_INSTALLED` and `PROGRESS_VERIFIED`
  unfoldable pub plan_changed : State → Progress → Destination → Temporary → Result (List Step)
  unfolding make_step restore_step
  plan_changed source_state progress after absent = do
    restore ← restore_step path operation progress
    ok (restore ∷ (make_step mark_restored path operation progress before absent ∷ []))
  plan_changed rolling_back progress before absent =
      ok (make_step mark_restored path operation progress before absent ∷ [])
  plan_changed _ _ _ _ = err (error path "unsupported changed-file physical state")

  -- the branch for `PROGRESS_RESTORED`
  unfoldable pub plan_restored : State → Destination → Temporary → Result (List Step)
  plan_restored rolling_back before absent = ok []
  plan_restored rolling_back _ _ = err (error path "RESTORED evidence is not physically restored")
  plan_restored _ _ _ = err (error path "RESTORED progress outside ROLLING_BACK")

  unfoldable pub plan_progress : State → Progress → Destination → Temporary → Result (List Step)
  unfolding plan_pending plan_changed plan_restored
  plan_progress source_state pending destination temporary = plan_pending destination temporary
  plan_progress source_state installed destination temporary =
      plan_changed source_state installed destination temporary
  plan_progress source_state verified destination temporary =
      plan_changed source_state verified destination temporary
  plan_progress source_state restored destination temporary =
      plan_restored source_state destination temporary
  plan_progress source_state (Progress.unknown _) destination temporary =
      err (error path "unsupported journal progress")

  -- `_plan_file`
  unfoldable pub plan_file : State → Progress → Destination → Temporary → Result (List Step)
  unfolding plan_progress
  plan_file source_state progress destination temporary = do
    raise_if (is_other destination) (error path "destination state is ambiguous")
    raise_if (is_unexpected temporary) (error path "temporary state is unsafe")
    plan_progress source_state progress destination temporary

-- the strings of two operations are equal
unfoldable pub same_operation : Operation → Operation → Bool
same_operation add add = true
same_operation modify modify = true
same_operation (unsupported s) (unsupported t) = str_eq s t
same_operation _ _ = false

-- the checks that tie an inspected file to the file of the transaction
unfoldable pub check_same_file : TransactionFile → AppliedFile → Result (Unit {0})
unfolding same_operation same_progress
check_same_file f a = do
  raise_if (not (str_eq a.path f.path)) (error "" "transaction/applied-target path mismatch")
  raise_if (not (same_operation a.operation f.operation)) (error f.path "operation mismatch")
  raise_if (not (same_progress a.journal_progress f.progress))
      (error f.path "journal progress mismatch")
  raise_if (not (str_eq a.destination.path f.path)) (error f.path "destination path mismatch")
  raise_if (not (same_operation a.destination.operation f.operation))
      (error f.path "destination operation mismatch")
  raise_if (not (same_progress a.destination.journal_progress f.progress))
      (error f.path "destination progress mismatch")
  raise_if (not (str_eq a.temporary.path f.path))
      (error f.path "temporary destination path mismatch")

-- the loop over the two tuples, which have the same length
unfoldable pub plan_files : State → List TransactionFile → List AppliedFile → Result (List Step)
unfolding check_same_file
plan_files state (f ∷ fs) (a ∷ items) = do
  check_same_file f a
  steps ← plan_file f.path f.operation state f.progress a.destination.status a.temporary.status
  rest ← plan_files state fs items
  ok (steps ++ rest)
plan_files state [] [] = ok []
plan_files state [] (a ∷ items) = err (error "" "transaction/applied-target file count mismatch")
plan_files state (f ∷ fs) [] = err (error "" "transaction/applied-target file count mismatch")

-- `APPLYING` and `VERIFYING` have to enter the rollback first
unfoldable pub enter_steps : State → List Step
unfolding make_bare_step
enter_steps applying = make_bare_step enter_rollback ∷ []
enter_steps verifying = make_bare_step enter_rollback ∷ []
enter_steps _ = []

abbrev pub is_plannable : State → Bool
is_plannable applying = true
is_plannable verifying = true
is_plannable rolling_back = true
is_plannable _ = false

abbrev json_operation : Option Operation → Json
json_operation none = Json.null
json_operation (some o) = Json.text (operation_name o)

abbrev json_progress : Option Progress → Json
json_progress none = Json.null
json_progress (some p) = Json.text (progress_name p)

abbrev json_destination : Option Destination → Json
json_destination none = Json.null
json_destination (some d) = Json.text (destination_name d)

abbrev json_temporary : Option Temporary → Json
json_temporary none = Json.null
json_temporary (some t) = Json.text (temporary_name t)

unfoldable pub step_object : Step → Json
unfolding step_kind_name operation_name progress_name destination_name temporary_name
step_object s = object_of (
    ("kind", Json.text (step_kind_name s.kind))
    ∷ ("path", json_text s.path)
    ∷ ("operation", json_operation s.operation)
    ∷ ("expected_progress", json_progress s.expected_progress)
    ∷ ("expected_destination", json_destination s.expected_destination)
    ∷ ("expected_temporary", json_temporary s.expected_temporary)
    ∷ [])

unfoldable pub step_objects : List Step → Items
unfolding step_object
step_objects [] = nil
step_objects (s ∷ ss) = item (step_object s) (step_objects ss)
