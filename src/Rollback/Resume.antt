-- ===== src/Rollback/Resume.antt =====
-- Plans for one file that is modified, carried out and made again (`_plan_file` of lab_promotion_rollback_plan.py).
use hands_free_auto_lab_port.Prelude.{
  String, sym, ◌∙◌, ◌≡◌, ◌⊎◌, some, List, [], ◌∷◌, ◌++◌, Result, ok, arith,
}
use mathlib.Core.Path.{subst}
use mathlib.Core.Option.{some-injective}
use hands_free_auto_lab_port.Proposal.{Operation, modify}
use hands_free_auto_lab_port.Transaction.Types.{State, rolling_back, pending, restored}
use hands_free_auto_lab_port.Transaction.Rules.{◌⇝◌}
use hands_free_auto_lab_port.Rollback.Types.{before, absent, Step}
use hands_free_auto_lab_port.Rollback.Plan.{plan_file}
use hands_free_auto_lab_port.Rollback.Replay.{effect, Situation, perform, run, run-cons, run-cons}

-- The original is back in place, and the journal says so.
pub record IsRestored (x : Situation) : Type 0 where
  pub destination : x.destination ≡ before
  pub temporary : x.temporary ≡ absent
  pub progress : (x.progress ≡ pending) ⊎ (x.progress ≡ restored)

-- The steps can be performed one after another, and each moves the journal as its rules allow.
pub data Replays : List Step → Situation → Situation → Type 0 where
  finished : {x : Situation} → Replays [] x x
  then :
      {x z : Situation} {rest : List Step} (step : Step) (y : Situation)
      → perform step x ≡ some y
      → x.progress ⇝ y.progress
      → Replays rest y z
      → Replays (step ∷ rest) x z

-- Nothing is planned only for a file, of any operation, that is as it was.
pub plan_file-nil :
    (path : String) (operation : Operation) (x : Situation)
    → plan_file path operation rolling_back x.progress x.destination x.temporary ≡ ok []
    → IsRestored x
unfolding plan_file
plan_file-nil path operation x h = ground arith

module _ (path : String) where
  -- the plan for a modified file that is already being rolled back
  abbrev replan : Situation → Result (List Step)
  replan x = plan_file path modify rolling_back x.progress x.destination x.temporary

  -- A plan made before the rollback began is the plan that would be made in it.
  plan_file-rolling_back :
      (s : State) (x : Situation) {steps : List Step}
      → plan_file path modify s x.progress x.destination x.temporary ≡ ok steps
      → replan x ≡ ok steps
  unfolding plan_file
  plan_file-rolling_back s x h = ground arith

  module _ (x : Situation) (step : Step) (rest : List Step)
      (planned : replan x ≡ ok (step ∷ rest)) where
    perform-planned : perform step x ≡ some (effect step.kind x)
    unfolding plan_file perform
    perform-planned = ground arith

    replan-effect : replan (effect step.kind x) ≡ ok rest
    unfolding plan_file effect
    replan-effect = ground arith

  replan_after :
      (first rest : List Step) (x : Situation) {y : Situation}
      → replan x ≡ ok (first ++ rest)
      → run first x ≡ some y
      → replan y ≡ ok rest
  unfolding run
  replan_after [] rest x h r = subst (λ z. replan z ≡ ok rest) (some-injective _ _ r) h
  replan_after (step ∷ first) rest x h r =
      let next = effect step.kind x in
      replan_after first rest next (replan-effect x step (first ++ rest) h)
        (sym (run-cons step first x next (perform-planned x step (first ++ rest) h)) ∙ r)

  -- If the execution of a plan for a MODIFY file stops after any of its steps, planning anew in
  -- ROLLING_BACK from the situation that is left gives exactly the steps that remain.
  pub plan_file_resumes :
      (s : State) (x : Situation) (first rest : List Step) {y : Situation}
      → plan_file path modify s x.progress x.destination x.temporary ≡ ok (first ++ rest)
      → run first x ≡ some y
      → plan_file path modify rolling_back y.progress y.destination y.temporary ≡ ok rest
  plan_file_resumes s x first rest h r = replan_after first rest x (plan_file-rolling_back s x h) r
