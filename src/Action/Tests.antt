-- ===== src/Action/Tests.antt =====
-- Actions, and the theorem about those that are eligible at concrete data.
use hands_free_auto_lab_port.Prelude.{◌↔◌, true, err, ok, ◌≡◌, String, [], refl, some}
use hands_free_auto_lab_port.Action.Eligible.{
  evaluate_kind, evaluate_run, evaluate_file, validate_unittest_run, check_command, check_module,
  relative_path, normpath, reverse_onto, kept_parts, lab_policy, file_eligible, policy_error_of,
  reserved_acceptance_path, evaluate_lab_policy,
}
use hands_free_auto_lab_port.Action.Validate.{
  is_fromhex, check_kind, action_object, argument_items, validate_content, validate_text,
  action_identity, action_of, build_lab_action, validate_lab_action,
}
use hands_free_auto_lab_port.Action.Permitted.{evaluate_lab_policy_iff}
use hands_free_auto_lab_port.Action.Allowed.{IsAllowed}
use hands_free_auto_lab_port.Action.Types.{kind_name, Action, write_file}
use hands_free_auto_lab_port.Paths.{starts_with, same_codes, join}
use hands_free_auto_lab_port.Samples.{toy, opened}

-- Unfolding this name opens what a run of the policy computes with.
opened_policy : Unit {0}
unfolding opened join same_codes starts_with kind_name validate_text validate_content argument_items
    action_object check_kind is_fromhex action_identity validate_lab_action action_of
    build_lab_action kept_parts reverse_onto normpath relative_path check_module check_command
    validate_unittest_run evaluate_file evaluate_run evaluate_kind evaluate_lab_policy
opened_policy = tt

abbrev write_of : String → Action
write_of path =
    action_of (action_identity toy (action_of "" write_file (some path) "." [] (some "hi")))
      write_file (some path) "." [] (some "hi")

abbrev a_write : Action
a_write = write_of "src/a.txt"

write_built : build_lab_action toy write_file (some "src/a.txt") "." [] (some "hi") ≡ ok a_write
unfolding opened_policy
write_built = refl

write_eligible :
    evaluate_lab_policy toy a_write
    ≡ ok (file_eligible lab_policy true a_write.action_id write_file "." "src/a.txt")
unfolding opened_policy
write_eligible = refl

-- The acceptance program is not written, and a path does not climb.
acceptance_refused :
    evaluate_lab_policy toy (write_of reserved_acceptance_path)
    ≡ err (policy_error_of "" "WRITE_FILE path is reserved for controller acceptance")
unfolding opened_policy
acceptance_refused = refl

climbing_refused :
    evaluate_lab_policy toy (write_of "src/../../a")
    ≡ err (policy_error_of "path" "must be canonical")
unfolding opened_policy
climbing_refused = refl

evaluate_lab_policy_iff_example :
    (evaluate_lab_policy toy a_write
      ≡ ok (file_eligible lab_policy true a_write.action_id write_file "." "src/a.txt"))
    ↔ IsAllowed toy a_write
        (file_eligible lab_policy true a_write.action_id write_file "." "src/a.txt")
evaluate_lab_policy_iff_example =
    evaluate_lab_policy_iff toy a_write
      (file_eligible lab_policy true a_write.action_id write_file "." "src/a.txt")
