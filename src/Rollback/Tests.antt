-- ===== src/Rollback/Tests.antt =====
-- Plans at sample data, and the theorems about plans at concrete data.
use hands_free_auto_lab_port.Prelude.{String, ◌≡◌, refl, some, List, [], ◌∷◌, ◌++◌, ok, pos}
use hands_free_auto_lab_port.Samples.{toy, sample_head, even_id}
use hands_free_auto_lab_port.Proposal.{Operation, add, modify}
use hands_free_auto_lab_port.Transaction.Types.{
  applying, rolling_back, rolled_back, Progress, pending, installed, restored,
}
use hands_free_auto_lab_port.Transaction.Samples.{at, opened_transaction}
use hands_free_auto_lab_port.Transaction.Transition.{
  successor, transition_lab_promotion_transaction,
}
use hands_free_auto_lab_port.Transaction.Unchanged.{progress_of}
use hands_free_auto_lab_port.Rollback.Types.{
  before, after, absent, reconcile_installed, restore_preimage, mark_restored, finish_rollback,
  Step, RollbackPlan, AppliedFile, Inspection, applied_target_component,
  applied_target_schema_version,
}
use hands_free_auto_lab_port.Rollback.Plan.{
  plan_files, enter_steps, make_step, make_bare_step, plan_file,
}
use hands_free_auto_lab_port.Rollback.Build.{
  check_identity_pairs, build_lab_promotion_rollback_plan, rollback_plan,
}
use hands_free_auto_lab_port.Rollback.Replay.{Situation, effect, perform, run}
use hands_free_auto_lab_port.Rollback.Resume.{plan_file_resumes}
use hands_free_auto_lab_port.Rollback.Finish.{finish_accepted}

-- The journal says PENDING, and the new contents are in place: a crash after the replacement.
abbrev crashed : Situation
crashed = record { progress = pending; destination = after; temporary = absent }

abbrev first_steps : List Step
first_steps =
    make_step reconcile_installed "src/main.py" modify pending after absent
    ∷ (make_step restore_preimage "src/main.py" modify installed after absent ∷ [])

abbrev last_steps : List Step
last_steps = make_step mark_restored "src/main.py" modify installed before absent ∷ []

abbrev interrupted : Situation
interrupted = record { progress = installed; destination = before; temporary = absent }

crashed_plan :
    plan_file "src/main.py" modify applying pending after absent ≡ ok (first_steps ++ last_steps)
unfolding plan_file make_step
crashed_plan = refl

crashed-run : run first_steps crashed ≡ some interrupted
unfolding run perform effect make_step
crashed-run = refl

plan_file_resumes_example :
    plan_file "src/main.py" modify rolling_back installed before absent ≡ ok last_steps
plan_file_resumes_example =
    plan_file_resumes "src/main.py" applying crashed first_steps last_steps crashed_plan crashed-run

abbrev observed : String → Operation → Progress → AppliedFile
observed path operation progress = record {
  path = path;
  operation = operation;
  journal_progress = progress;
  destination = record {
    path = path;
    operation = operation;
    journal_progress = progress;
    status = before;
  };
  temporary = record { path = path; status = absent };
}

-- Both files are back as they were.
abbrev inspected : Inspection
inspected = record {
  component = applied_target_component;
  schema_version = applied_target_schema_version;
  transaction_id = (at rolling_back restored pending).transaction_id;
  snapshot_id = (at rolling_back restored pending).snapshot_id;
  materials_id = even_id;
  repository_path = "/srv/repo";
  repository_device = pos 5;
  repository_inode = pos 77;
  branch = "main";
  head = sample_head;
  files = observed "docs/new.txt" add restored ∷ (observed "src/main.py" modify pending ∷ []);
}

abbrev last_plan : RollbackPlan
last_plan =
    rollback_plan toy (at rolling_back restored pending) even_id
      (make_bare_step finish_rollback ∷ [])

planned :
    build_lab_promotion_rollback_plan toy (at rolling_back restored pending) inspected
    ≡ ok last_plan
unfolding opened_transaction build_lab_promotion_rollback_plan check_identity_pairs plan_files
    plan_file enter_steps
planned = refl

finish_accepted_example :
    transition_lab_promotion_transaction toy
      (at rolling_back restored pending)
      rolled_back
      (progress_of (at rolling_back restored pending).files)
    ≡ ok (
        successor toy
          (at rolling_back restored pending)
          rolled_back
          (at rolling_back restored pending).files)
unfolding successor rollback_plan
finish_accepted_example =
    finish_accepted toy (at rolling_back restored pending) inspected planned refl refl
