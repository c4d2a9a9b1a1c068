-- ===== src/Policy/Samples.antt =====
-- A policy of two targets, for the tests.
use hands_free_auto_lab_port.Prelude.{for_each, pos, [], ◌∷◌}
use hands_free_auto_lab_port.Policy.Evidence.{
  validate_lab_worker_change_policy_before, same_diff, same_changes, same_change, check_changes,
  get_target, check_change, check_before, check_modified, check_after, check_target_before,
  check_modified_before, validate_lab_worker_change_policy_diff,
}
use hands_free_auto_lab_port.Policy.Validate.{
  validate_lab_worker_change_policy, policy_identity, validate_lab_worker_change_target,
  validate_before, policy_object, target_objects, policy_of, build_lab_worker_change_policy,
}
use hands_free_auto_lab_port.Checks.{null, integer, text}
use hands_free_auto_lab_port.Policy.Checks.{
  require_mode, check_mode_bits, require_positive_int, require_nonnegative_int,
  require_relative_path, require_identifier,
}
use hands_free_auto_lab_port.Samples.{even_id, toy}
use hands_free_auto_lab_port.Policy.Types.{operation_modify, operation_add, Target, ChangePolicy}
use hands_free_auto_lab_port.Snapshot.Samples.{opened_snapshots}

-- Unfolding this name opens what a run of the checks of a policy computes with.
unfoldable pub opened_policy : Unit {0}
unfolding opened_snapshots for_each require_identifier require_relative_path require_nonnegative_int
    require_positive_int check_mode_bits require_mode target_objects policy_object validate_before
    validate_lab_worker_change_target policy_identity validate_lab_worker_change_policy policy_of
    build_lab_worker_change_policy check_modified_before check_target_before check_after
    check_modified check_before check_change get_target check_changes same_change same_changes
    same_diff validate_lab_worker_change_policy_before validate_lab_worker_change_policy_diff
opened_policy = tt

abbrev pub modify_target : Target
modify_target = record {
  operation = text operation_modify;
  path = text "a.txt";
  max_final_bytes = integer (pos 5);
  final_mode = integer (pos 0o644);
  before_bytes = integer (pos 3);
  before_sha256 = text even_id;
  before_mode = integer (pos 0o644);
}

abbrev pub add_target : Target
add_target = record {
  operation = text operation_add;
  path = text "lib/b.txt";
  max_final_bytes = integer (pos 10);
  final_mode = integer (pos 0o600);
  before_bytes = null;
  before_sha256 = null;
  before_mode = null;
}

abbrev pub two_targets : ChangePolicy
two_targets = policy_of toy (modify_target ∷ add_target ∷ [])
