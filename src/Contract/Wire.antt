-- ===== src/Contract/Wire.antt =====
-- Wire values are JSON values; a policy as a wire value (`_policy_to_wire` and `_policy_from_wire`
-- of lab_coding_integration_contract.py).
use hands_free_auto_lab_port.Prelude.{
  not, raise_if, ◌>>◌, ◌>>=◌, ok, err, Result, ◌∷◌, [], String, List, Error, same_set,
}
use hands_free_auto_lab_port.Json.{
  field_names, get_field, nil, item, object_of, Fields, Items, Json,
}
use hands_free_auto_lab_port.Policy.Validate.{validate_lab_worker_change_policy, target_objects}
use hands_free_auto_lab_port.Contract.Checks.{error}
use hands_free_auto_lab_port.Checks.{
  compound, text, integer, boolean, json_value, null, Value, Sha256,
}
use hands_free_auto_lab_port.Policy.Types.{Target, ChangePolicy}

-- the items of a parsed value
abbrev pub value_of_json : Json → Value
value_of_json Json.null = null
value_of_json (Json.boolean b) = boolean b
value_of_json (Json.integer n) = integer n
value_of_json (Json.text s) = text s
value_of_json (Json.array xs) = compound (Json.array xs)
value_of_json (Json.object fs) = compound (Json.object fs)

-- `type(value) is dict`, and the fields are exactly those of the schema
unfoldable pub exact_object : String → List String → Json → Result Fields
unfolding same_set field_names
exact_object name schema (Json.object fs) = do
  raise_if (not (same_set (field_names fs) schema))
      (error name "fields do not exactly match schema")
  ok fs
exact_object name schema _ = err (error name "must be an exact object")

-- `type(value) is list and value`
unfoldable pub nonempty_list : String → Json → Result Items
nonempty_list name (Json.array (item x xs)) = ok (item x xs)
nonempty_list name _ = err (error name "must be a non-empty exact list")

abbrev pub policy_wire_fields : List String
policy_wire_fields = "component" ∷ "schema_version" ∷ "policy_id" ∷ "targets" ∷ []

abbrev pub policy_target_wire_fields : List String
policy_target_wire_fields =
    "operation" ∷ "path" ∷ "max_final_bytes" ∷ "final_mode" ∷ "before_bytes" ∷ "before_sha256"
    ∷ "before_mode" ∷ []

-- the object that `_policy_to_wire` returns
unfoldable pub policy_wire : ChangePolicy → Json
unfolding target_objects
policy_wire p = object_of (
    ("component", json_value p.component)
    ∷ ("schema_version", json_value p.schema_version)
    ∷ ("policy_id", json_value p.policy_id)
    ∷ ("targets", Json.array (target_objects p.targets))
    ∷ [])

-- the body of the loop of `_policy_from_wire`
unfoldable pub target_from_wire : Json → Result Target
unfolding exact_object get_field
target_from_wire value = do
  fs ← exact_object "change policy wire target" policy_target_wire_fields value
  operation ← get_field "operation" fs
  path ← get_field "path" fs
  max_final_bytes ← get_field "max_final_bytes" fs
  final_mode ← get_field "final_mode" fs
  before_bytes ← get_field "before_bytes" fs
  before_sha256 ← get_field "before_sha256" fs
  before_mode ← get_field "before_mode" fs
  ok (record {
    operation = value_of_json operation;
    path = value_of_json path;
    max_final_bytes = value_of_json max_final_bytes;
    final_mode = value_of_json final_mode;
    before_bytes = value_of_json before_bytes;
    before_sha256 = value_of_json before_sha256;
    before_mode = value_of_json before_mode;
  })

unfoldable pub targets_from_wire : Items → Result (List Target)
unfolding target_from_wire
targets_from_wire nil = ok []
targets_from_wire (item x xs) = do t ← target_from_wire x; ts ← targets_from_wire xs; ok (t ∷ ts)

-- `except Exception as exc: raise LabCodingIntegrationContractError(...) from exc`
abbrev pub rewrap {ℓ} : {A : Type ℓ} → Error → Result A → Result A
rewrap e (err exception) = err e
rewrap e (ok x) = ok x

module _ (H : Sha256) where
  unfoldable pub policy_to_wire : ChangePolicy → Result Json
  unfolding policy_wire
  policy_to_wire policy = do
    trusted ← validate_lab_worker_change_policy H policy
    ok (policy_wire trusted)

  unfoldable pub policy_from_wire : Json → Result ChangePolicy
  unfolding exact_object get_field nonempty_list targets_from_wire
  policy_from_wire value = do
    fs ← exact_object "change policy wire" policy_wire_fields value
    targets_value ← get_field "targets" fs
    items ← nonempty_list "change policy wire targets" targets_value
    targets ← targets_from_wire items
    component ← get_field "component" fs
    schema_version ← get_field "schema_version" fs
    policy_id ← get_field "policy_id" fs
    rewrap (error "" "change policy wire evidence is invalid") (
        validate_lab_worker_change_policy H (record {
          component = value_of_json component;
          schema_version = value_of_json schema_version;
          policy_id = value_of_json policy_id;
          targets = targets;
        }))
