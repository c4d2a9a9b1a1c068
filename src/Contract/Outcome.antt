-- ===== src/Contract/Outcome.antt =====
-- Results: validated, built, sent and received (lab_coding_integration_contract.py).
use hands_free_auto_lab_port.Prelude.{
  str_eq, not, ok, raise_if, ◌>>◌, ◌>>=◌, [], ◌∷◌, Result, String, List,
}
use hands_free_auto_lab_port.Contract.Checks.{error, require_identifier}
use hands_free_auto_lab_port.Checks.{same_value, integer, json_value, text, Value, Sha256}
use hands_free_auto_lab_port.Contract.Request.{
  provisional_id, validate_lab_coding_integration_request,
}
use hands_free_auto_lab_port.Contract.Wire.{value_of_json, exact_object}
use hands_free_auto_lab_port.Json.{get_field, object_of, Json}
use hands_free_auto_lab_port.Contract.Types.{
  result_schema_version, result_id_domain, result_component, Request, Outcome,
}
use hands_free_auto_lab_port.Proposal.{identity}

-- `_result_identity`
unfoldable pub result_object : Outcome → Json
result_object r = object_of (
    ("component", json_value r.component)
    ∷ ("schema_version", json_value r.schema_version)
    ∷ ("request_id", json_value r.request_id)
    ∷ ("candidate_id", json_value r.candidate_id)
    ∷ [])

abbrev pub result_wire_fields : List String
result_wire_fields =
    "component" ∷ "schema_version" ∷ "result_id" ∷ "request_id" ∷ "candidate_id" ∷ []

-- the object that `lab_coding_integration_result_to_wire` returns
unfoldable pub result_wire : Outcome → Json
result_wire r = object_of (
    ("component", json_value r.component)
    ∷ ("schema_version", json_value r.schema_version)
    ∷ ("result_id", json_value r.result_id)
    ∷ ("request_id", json_value r.request_id)
    ∷ ("candidate_id", json_value r.candidate_id)
    ∷ [])

-- the result with the constants of this version
unfoldable pub result_of : Value → Value → Value → Outcome
result_of result_id request_id candidate_id = record {
  component = text result_component;
  schema_version = integer result_schema_version;
  result_id = result_id;
  request_id = request_id;
  candidate_id = candidate_id;
}

module _ (H : Sha256) where
  -- `_result_id`, of a result whose fields were validated
  unfoldable pub result_identity : Outcome → String
  unfolding result_object
  result_identity r = identity H result_id_domain (result_object r)

  unfoldable pub validate_lab_coding_integration_result : Outcome → Result Outcome
  unfolding require_identifier result_identity
  validate_lab_coding_integration_result r = do
    raise_if (not (same_value r.component (text result_component)))
        (error "" "coding integration result component mismatch")
    raise_if (not (same_value r.schema_version (integer result_schema_version)))
        (error "" "unsupported coding integration result schema version")
    supplied_id ← require_identifier "result_id" 64 r.result_id
    _ ← require_identifier "request_id" 64 r.request_id
    _ ← require_identifier "candidate_id" 64 r.candidate_id
    raise_if (not (str_eq supplied_id (result_identity r)))
        (error "" "result_id does not match result evidence")
    ok r

  unfoldable pub build_lab_coding_integration_result : Request → Value → Result Outcome
  unfolding validate_lab_coding_integration_request require_identifier result_of
  build_lab_coding_integration_result request candidate_id = do
    trusted_request ← validate_lab_coding_integration_request H request
    candidate ← require_identifier "candidate_id" 64 candidate_id
    let id =
          result_identity (result_of provisional_id trusted_request.request_id (text candidate)) in
        validate_lab_coding_integration_result
          (result_of (text id) trusted_request.request_id (text candidate))

  unfoldable pub lab_coding_integration_result_to_wire : Outcome → Result Json
  unfolding result_wire
  lab_coding_integration_result_to_wire result = do
    trusted ← validate_lab_coding_integration_result result
    ok (result_wire trusted)

  unfoldable pub lab_coding_integration_result_from_wire : Json → Result Outcome
  unfolding exact_object get_field
  lab_coding_integration_result_from_wire value = do
    fs ← exact_object "result wire" result_wire_fields value
    component ← get_field "component" fs
    schema_version ← get_field "schema_version" fs
    result_id ← get_field "result_id" fs
    request_id ← get_field "request_id" fs
    candidate_id ← get_field "candidate_id" fs
    validate_lab_coding_integration_result (record {
      component = value_of_json component;
      schema_version = value_of_json schema_version;
      result_id = value_of_json result_id;
      request_id = value_of_json request_id;
      candidate_id = value_of_json candidate_id;
    })
