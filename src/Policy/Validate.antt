-- ===== src/Policy/Validate.antt =====
-- Targets and policies are validated, and a policy is built (lab_worker_change_policy.py).
use hands_free_auto_lab_port.Prelude.{
  String, Bool, not, ◌||◌, ◌&&◌, List, [], ◌∷◌, map, Result, ok, raise_if, ◌>>=◌, ◌>>◌, traverse,
  if◌then◌else◌, is_nil, is_sorted, distinct, sorted_by, str_eq,
}
use hands_free_auto_lab_port.Json.{Json, Items, nil, item, object_of}
use hands_free_auto_lab_port.Checks.{
  Value, null, text, integer, text_of, same_value, json_value, Sha256,
}
use hands_free_auto_lab_port.Proposal.{identity}
use hands_free_auto_lab_port.Policy.Types.{
  Target, ChangePolicy, change_policy_component, change_policy_schema_version, operation_add,
  operation_modify, policy_id_domain,
}
use hands_free_auto_lab_port.Policy.Checks.{
  error, require_identifier, require_relative_path, require_nonnegative_int, require_positive_int,
  require_mode,
}

-- `_target_identity`, for each target
unfoldable pub target_objects : List Target → Items
target_objects [] = nil
target_objects (t ∷ ts) =
    item
      (object_of (
        ("operation", json_value t.operation)
        ∷ ("path", json_value t.path)
        ∷ ("max_final_bytes", json_value t.max_final_bytes)
        ∷ ("final_mode", json_value t.final_mode)
        ∷ ("before_bytes", json_value t.before_bytes)
        ∷ ("before_sha256", json_value t.before_sha256)
        ∷ ("before_mode", json_value t.before_mode)
        ∷ []))
      (target_objects ts)

-- `_policy_identity`
unfoldable pub policy_object : Value → Value → List Target → Json
unfolding target_objects
policy_object component schema_version targets = object_of (
    ("component", json_value component)
    ∷ ("schema_version", json_value schema_version)
    ∷ ("targets", Json.array (target_objects targets))
    ∷ [])

-- `target.operation == OPERATION_ADD`
abbrev pub is_add : Target → Bool
is_add t = same_value t.operation (text operation_add)

abbrev pub is_modify : Target → Bool
is_modify t = same_value t.operation (text operation_modify)

-- the checks on the state before, which depend on the operation
unfoldable pub validate_before : Target → Result (Unit {0})
unfolding same_value require_nonnegative_int require_identifier require_mode
validate_before t =
    if is_add t
    then raise_if
        (not (
          same_value t.before_bytes null
          && (same_value t.before_sha256 null && same_value t.before_mode null)))
        (error "" "ADDED target must not contain before-state provenance")
    else (do
      _ ← require_nonnegative_int "before_bytes" t.before_bytes
      _ ← require_identifier "before_sha256" t.before_sha256
      _ ← require_mode "before_mode" t.before_mode
      ok tt)

unfoldable pub validate_lab_worker_change_target : Target → Result Target
unfolding validate_before
validate_lab_worker_change_target t = do
  raise_if (not (is_add t || is_modify t))
      (error "" "change target operation must be ADDED or MODIFIED")
  _ ← require_relative_path t.path
  _ ← require_positive_int "max_final_bytes" t.max_final_bytes
  _ ← require_mode "final_mode" t.final_mode
  validate_before t
  ok t

abbrev pub target_paths : List Target → List String
target_paths = map (λ (t : Target). text_of t.path)

module _ (H : Sha256) where
  -- `_policy_id`, of a policy whose targets were validated
  unfoldable pub policy_identity : Value → Value → List Target → String
  policy_identity component schema_version targets =
      identity H policy_id_domain (policy_object component schema_version targets)

  unfoldable pub validate_lab_worker_change_policy : ChangePolicy → Result ChangePolicy
  validate_lab_worker_change_policy p = do
    raise_if (not (same_value p.component (text change_policy_component)))
        (error "" "change-policy component mismatch")
    raise_if (not (same_value p.schema_version (integer change_policy_schema_version)))
        (error "" "unsupported change-policy schema version")
    supplied_id ← require_identifier "policy_id" p.policy_id
    raise_if (is_nil p.targets) (error "" "change policy must contain a non-empty target tuple")
    targets ← traverse validate_lab_worker_change_target p.targets
    raise_if (not (is_sorted (target_paths targets)))
        (error "" "change-policy targets must be in canonical path order")
    raise_if (not (distinct (target_paths targets)))
        (error "" "change-policy targets must not contain duplicate paths")
    raise_if (not (str_eq supplied_id (policy_identity p.component p.schema_version p.targets)))
        (error "" "change-policy identity mismatch")
    ok p

  -- the policy of targets with the identity of its contents
  unfoldable pub policy_of : List Target → ChangePolicy
  policy_of targets = record {
    component = text change_policy_component;
    schema_version = integer change_policy_schema_version;
    policy_id = text (
        policy_identity (text change_policy_component) (integer change_policy_schema_version)
          targets);
    targets = targets;
  }

  unfoldable pub build_lab_worker_change_policy : List Target → Result ChangePolicy
  unfolding sorted_by
  build_lab_worker_change_policy targets = do
    validated ← traverse validate_lab_worker_change_target targets
    validate_lab_worker_change_policy
        (policy_of (sorted_by (λ (t : Target). text_of t.path) validated))
