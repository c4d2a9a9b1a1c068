-- ===== src/Rollback/Replay.antt =====
-- What the steps of a plan do to one file that is modified: an independent reading of the step
-- kinds, after the dispatch of `execute_lab_promotion_rollback` (src/hands_free_auto_lab/
-- lab_promotion_rollback_executor.py), which takes transactions of MODIFY files only. The
-- expectations of a step are compared with what is observed, and then the step changes the
-- journal's progress, the destination or the temporary.
use hands_free_auto_lab_port.Prelude.{
  String, ◌≡◌, Bool, true, false, ◌&&◌, Option, none, some, List, [], ◌∷◌, str_eq, if◌then◌else◌,
}
use hands_free_auto_lab_port.Proposal.{modify}
use hands_free_auto_lab_port.Rollback.Plan.{same_operation}
use hands_free_auto_lab_port.Transaction.Types.{Progress, installed, restored}
use hands_free_auto_lab_port.Transaction.Transition.{same_progress}
use hands_free_auto_lab_port.Rollback.Types.{
  Destination, before, after, other, Temporary, absent, exact_temp, unexpected_temp, StepKind,
  enter_rollback, reconcile_installed, remove_exact_temp, restore_preimage, remove_added_file,
  mark_restored, finish_rollback, Step,
}

-- One file: its progress in the journal, what stands at its path, and its temporary.
pub record Situation : Type 0 where
  pub progress : Progress
  pub destination : Destination
  pub temporary : Temporary

unfoldable pub same_destination : Destination → Destination → Bool
same_destination before before = true
same_destination after after = true
same_destination other other = true
same_destination (Destination.unknown s) (Destination.unknown t) = str_eq s t
same_destination _ _ = false

unfoldable pub same_temporary : Temporary → Temporary → Bool
same_temporary absent absent = true
same_temporary exact_temp exact_temp = true
same_temporary unexpected_temp unexpected_temp = true
same_temporary (Temporary.unknown s) (Temporary.unknown t) = str_eq s t
same_temporary _ _ = false

expects {ℓ} : {A : Type ℓ} → (A → A → Bool) → Option A → A → Bool
expects same none observed = true
expects same (some expected) observed = same observed expected

is_named : Option String → Bool
is_named none = false
is_named (some path) = true

-- The comparisons of `_require_step_observation`, for a MODIFY file: the step names the file, and
-- what it expects is the operation, the progress in the journal, and what is observed.
unfoldable pub is_expected : Step → Situation → Bool
unfolding expects is_named same_operation same_progress same_destination same_temporary
is_expected s x =
    is_named s.path
    && (expects same_operation s.operation modify
        && (expects same_progress s.expected_progress x.progress
            && (expects same_destination s.expected_destination x.destination
                && expects same_temporary s.expected_temporary x.temporary)))

-- Which steps the executor carries out on a file: the removal of a temporary has to expect
-- EXACT_TEMP, a restoration has to expect AFTER, and REMOVE_ADDED_FILE is refused. The first and the
-- last kind of step are about the whole transaction, and not about one file.
unfoldable pub is_supported : Step → Bool
unfolding expects same_destination same_temporary
is_supported s = elim (s.kind) [
  | reconcile_installed ↦ true
  | remove_exact_temp ↦ elim (s.expected_temporary) [ some exact_temp ↦ true | _ ↦ false ]
  | restore_preimage ↦ elim (s.expected_destination) [ some after ↦ true | _ ↦ false ]
  | remove_added_file ↦ false
  | mark_restored ↦ true
  | enter_rollback ↦ false
  | finish_rollback ↦ false
]

-- the change that a step makes to its file
unfoldable pub effect : StepKind → Situation → Situation
effect reconcile_installed x = record x { progress = installed }
effect remove_exact_temp x = record x { temporary = absent }
effect restore_preimage x = record x { destination = before }
effect mark_restored x = record x { progress = restored }
effect _ x = x

-- One step on a MODIFY file; `none` stands for the exception.
unfoldable pub perform : Step → Situation → Option Situation
unfolding is_expected is_supported effect
perform s x = if is_expected s x && is_supported s then some (effect s.kind x) else none

unfoldable pub run : List Step → Situation → Option Situation
run [] x = some x
run (s ∷ ss) x = elim (perform s x) [ none ↦ none | some y ↦ run ss y ]

pub run-cons :
    (s : Step) (ss : List Step) (x y : Situation) → perform s x ≡ some y → run (s ∷ ss) x ≡ run ss y
unfolding run
run-cons s ss x y h = rw (h, run)
