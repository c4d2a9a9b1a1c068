-- ===== src/Contract/Request.antt =====
-- Requests: validated, built, sent and received (lab_coding_integration_contract.py).
use hands_free_auto_lab_port.Prelude.{
  distinct, is_sorted, traverse, str_eq, type_error, raised, is_nil, not, raise_if, ok, ◌>>◌, ◌>>=◌,
  ◌||◌, ◌∷◌, [], String, Result, Bool, List, any,
}
use hands_free_auto_lab_port.Contract.Types.{
  request_id_domain, max_integration_goal_bytes, request_schema_version, request_component, Request,
}
use hands_free_auto_lab_port.Proposal.{identity}
use hands_free_auto_lab_port.Contract.Checks.{
  error, require_runtime, require_text, require_branch, require_identifier, require_absolute_path,
  require_relative_path,
}
use hands_free_auto_lab_port.Checks.{
  same_value, json_value, integer, is_object, text, Value, Sha256,
}
use hands_free_auto_lab_port.Policy.Validate.{validate_lab_worker_change_policy}
use hands_free_auto_lab_port.Contract.Wire.{
  value_of_json, policy_from_wire, nonempty_list, exact_object, policy_to_wire,
}
use hands_free_auto_lab_port.Json.{get_field, item, object_of, Json, nil, Items}
use hands_free_auto_lab_port.Policy.Types.{ChangePolicy}

unfoldable pub value_items : List Value → Items
value_items [] = nil
value_items (v ∷ vs) = item (json_value v) (value_items vs)

-- `tuple(paths)` of a parsed list
unfoldable pub items_values : Items → List Value
items_values nil = []
items_values (item x xs) = value_of_json x ∷ items_values xs

-- `_request_identity`, with the wire value of the policy
unfoldable pub request_object : Request → Json → Json
unfolding value_items
request_object r policy = object_of (
    ("component", json_value r.component)
    ∷ ("schema_version", json_value r.schema_version)
    ∷ ("repository_path", json_value r.repository_path)
    ∷ ("commit_oid", json_value r.commit_oid)
    ∷ ("expected_branch", json_value r.expected_branch)
    ∷ ("relative_paths", Json.array (value_items r.relative_paths))
    ∷ ("goal", json_value r.goal)
    ∷ ("change_policy", policy)
    ∷ ("max_runtime_seconds", json_value r.max_runtime_seconds)
    ∷ [])

-- `json.dumps` raises a TypeError on one of the fields
unfoldable pub has_object : Request → Bool
unfolding any
has_object r =
    any is_object (
      r.component ∷ r.schema_version ∷ r.repository_path ∷ r.commit_oid ∷ r.expected_branch ∷ r.goal
      ∷ r.max_runtime_seconds ∷ [])
    || any is_object r.relative_paths

-- the request with the constants of this version
unfoldable pub request_of :
    Value → Value → Value → Value → List Value → Value → ChangePolicy → Value → Request
request_of request_id repository_path commit_oid expected_branch relative_paths goal change_policy
      max_runtime_seconds =
    record {
      component = text request_component;
      schema_version = integer request_schema_version;
      request_id = request_id;
      repository_path = repository_path;
      commit_oid = commit_oid;
      expected_branch = expected_branch;
      relative_paths = relative_paths;
      goal = goal;
      change_policy = change_policy;
      max_runtime_seconds = max_runtime_seconds;
    }

-- `"0" * 64`
abbrev pub provisional_id : Value
provisional_id = text "0000000000000000000000000000000000000000000000000000000000000000"

abbrev pub request_wire_fields : List String
request_wire_fields =
    "component" ∷ "schema_version" ∷ "request_id" ∷ "repository_path" ∷ "commit_oid"
    ∷ "expected_branch" ∷ "relative_paths" ∷ "goal" ∷ "change_policy" ∷ "max_runtime_seconds" ∷ []

-- the object that `lab_coding_integration_request_to_wire` returns
unfoldable pub request_wire : Request → Json → Json
unfolding value_items
request_wire r policy = object_of (
    ("component", json_value r.component)
    ∷ ("schema_version", json_value r.schema_version)
    ∷ ("request_id", json_value r.request_id)
    ∷ ("repository_path", json_value r.repository_path)
    ∷ ("commit_oid", json_value r.commit_oid)
    ∷ ("expected_branch", json_value r.expected_branch)
    ∷ ("relative_paths", Json.array (value_items r.relative_paths))
    ∷ ("goal", json_value r.goal)
    ∷ ("change_policy", policy)
    ∷ ("max_runtime_seconds", json_value r.max_runtime_seconds)
    ∷ [])

-- the checks on `relative_paths`
unfoldable pub check_paths : List Value → Result (Unit {0})
unfolding require_relative_path
check_paths relative_paths = do
  raise_if (is_nil relative_paths) (error "" "relative_paths must be a non-empty exact tuple")
  paths ← traverse require_relative_path relative_paths
  raise_if (not (is_sorted paths)) (error "" "relative_paths must be in canonical path order")
  raise_if (not (distinct paths)) (error "" "relative_paths must not contain duplicates")

module _ (H : Sha256) where
  -- `_request_id`
  unfoldable pub request_identity : Request → Result String
  unfolding policy_to_wire has_object request_object
  request_identity r = do
    policy ← policy_to_wire H r.change_policy
    raise_if (has_object r) (raised type_error "" "Object is not JSON serializable")
    ok (identity H request_id_domain (request_object r policy))

  -- the checks from `repository_path` to `max_runtime_seconds`
  unfoldable pub check_evidence : Request → Result (Unit {0})
  unfolding require_absolute_path require_identifier require_branch check_paths require_text
      require_runtime
  check_evidence r = do
    _ ← require_absolute_path "repository_path" r.repository_path
    _ ← require_identifier "commit_oid" 40 r.commit_oid
    require_branch r.expected_branch
    check_paths r.relative_paths
    _ ← require_text "goal" max_integration_goal_bytes r.goal
    _ ← validate_lab_worker_change_policy H r.change_policy
    require_runtime r.max_runtime_seconds

  unfoldable pub validate_lab_coding_integration_request : Request → Result Request
  unfolding check_evidence request_identity require_identifier
  validate_lab_coding_integration_request r = do
    raise_if (not (same_value r.component (text request_component)))
        (error "" "coding integration request component mismatch")
    raise_if (not (same_value r.schema_version (integer request_schema_version)))
        (error "" "unsupported coding integration request schema version")
    supplied_id ← require_identifier "request_id" 64 r.request_id
    check_evidence r
    id ← request_identity r
    raise_if (not (str_eq supplied_id id)) (error "" "request_id does not match request evidence")
    ok r

  unfoldable pub build_lab_coding_integration_request :
      Value → Value → Value → List Value → Value → ChangePolicy → Value → Result Request
  unfolding request_of request_identity
  build_lab_coding_integration_request repository_path commit_oid expected_branch relative_paths
        goal change_policy max_runtime_seconds =
      do
        trusted_policy ← validate_lab_worker_change_policy H change_policy
        id ← request_identity (
            request_of provisional_id repository_path commit_oid expected_branch relative_paths goal
              trusted_policy max_runtime_seconds)
        validate_lab_coding_integration_request (
            request_of (text id) repository_path commit_oid expected_branch relative_paths goal
              trusted_policy max_runtime_seconds)

  unfoldable pub lab_coding_integration_request_to_wire : Request → Result Json
  unfolding request_wire policy_to_wire
  lab_coding_integration_request_to_wire request = do
    trusted ← validate_lab_coding_integration_request request
    policy ← policy_to_wire H trusted.change_policy
    ok (request_wire trusted policy)

  unfoldable pub lab_coding_integration_request_from_wire : Json → Result Request
  unfolding exact_object get_field nonempty_list items_values policy_from_wire
  lab_coding_integration_request_from_wire value = do
    fs ← exact_object "request wire" request_wire_fields value
    paths_value ← get_field "relative_paths" fs
    paths ← nonempty_list "request wire relative_paths" paths_value
    component ← get_field "component" fs
    schema_version ← get_field "schema_version" fs
    request_id ← get_field "request_id" fs
    repository_path ← get_field "repository_path" fs
    commit_oid ← get_field "commit_oid" fs
    expected_branch ← get_field "expected_branch" fs
    goal ← get_field "goal" fs
    policy_value ← get_field "change_policy" fs
    policy ← policy_from_wire H policy_value
    max_runtime_seconds ← get_field "max_runtime_seconds" fs
    validate_lab_coding_integration_request (record {
      component = value_of_json component;
      schema_version = value_of_json schema_version;
      request_id = value_of_json request_id;
      repository_path = value_of_json repository_path;
      commit_oid = value_of_json commit_oid;
      expected_branch = value_of_json expected_branch;
      relative_paths = items_values paths;
      goal = value_of_json goal;
      change_policy = policy;
      max_runtime_seconds = value_of_json max_runtime_seconds;
    })
