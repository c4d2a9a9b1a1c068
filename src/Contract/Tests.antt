-- ===== src/Contract/Tests.antt =====
-- The theorems about requests and results at concrete data.
use hands_free_auto_lab_port.Prelude.{
  is_space, ◌↔◌, err, is_hex_lower, ok, pos, contract_error, all_codes, ◌≡◌, codes, String,
  error_class, [], ◌∷◌, refl,
}
use hands_free_auto_lab_port.Contract.Types.{result_id_domain, Outcome, request_id_domain, Request}
use hands_free_auto_lab_port.Samples.{even_id, odd_id, toy}
use hands_free_auto_lab_port.Contract.Results.{result_round_trip}
use hands_free_auto_lab_port.Contract.Outcome.{
  lab_coding_integration_result_from_wire, lab_coding_integration_result_to_wire, result_identity,
  result_of, result_wire, result_object, validate_lab_coding_integration_result,
  build_lab_coding_integration_result,
}
use hands_free_auto_lab_port.Contract.Request.{
  check_evidence, request_identity, check_paths, has_object, items_values, value_items,
  request_object, provisional_id, request_wire, request_of, build_lab_coding_integration_request,
  lab_coding_integration_request_from_wire, validate_lab_coding_integration_request,
  lab_coding_integration_request_to_wire,
}
use hands_free_auto_lab_port.Contract.Wire.{
  policy_from_wire, policy_to_wire, targets_from_wire, target_from_wire, nonempty_list,
  exact_object, policy_wire,
}
use hands_free_auto_lab_port.Json.{get_field, field_names, object_of, Json}
use hands_free_auto_lab_port.Contract.Build.{result_build_total, request_build_iff}
use hands_free_auto_lab_port.Contract.Checks.{
  require_runtime, require_branch, require_relative_path, require_absolute_path, require_text,
  error, require_identifier,
}
use hands_free_auto_lab_port.Contract.Refusals.{request_wire_errors}
use hands_free_auto_lab_port.Contract.RoundTrip.{request_round_trip}
use hands_free_auto_lab_port.Checks.{integer, text, is_hex, Value}
use hands_free_auto_lab_port.Proposal.{identity}
use hands_free_auto_lab_port.Policy.Samples.{opened_policy, two_targets}

-- Unfolding this name opens what a run of the contract computes with.
opened_contract : Unit {0}
unfolding opened_policy is_space require_identifier require_text require_absolute_path
    require_relative_path require_branch require_runtime field_names get_field exact_object
    nonempty_list policy_wire target_from_wire targets_from_wire policy_to_wire policy_from_wire
    value_items items_values request_object has_object request_of request_wire check_paths
    request_identity check_evidence validate_lab_coding_integration_request
    build_lab_coding_integration_request lab_coding_integration_request_to_wire
    lab_coding_integration_request_from_wire result_object result_wire result_of result_identity
    validate_lab_coding_integration_result build_lab_coding_integration_result
    lab_coding_integration_result_to_wire lab_coding_integration_result_from_wire
opened_contract = tt

abbrev sample_commit : Value
sample_commit = text "0123456789abcdef0123456789abcdef01234567"

-- the request without its identifier
abbrev draft : Request
draft =
    request_of provisional_id (text "/srv/project") sample_commit (text "main")
      (text "a.txt" ∷ text "lib/b.txt" ∷ []) (text "Add a greeting") two_targets (integer (pos 600))

abbrev request_name : String
request_name = identity toy request_id_domain (request_object draft (policy_wire two_targets))

abbrev a_request : Request
a_request =
    request_of (text request_name) (text "/srv/project") sample_commit (text "main")
      (text "a.txt" ∷ text "lib/b.txt" ∷ []) (text "Add a greeting") two_targets (integer (pos 600))

request_valid : validate_lab_coding_integration_request toy a_request ≡ ok a_request
unfolding opened_contract
request_valid = refl

request_sent :
    lab_coding_integration_request_to_wire toy a_request
    ≡ ok (request_wire a_request (policy_wire two_targets))
unfolding opened_contract
request_sent = refl

request_round_trip_example :
    lab_coding_integration_request_from_wire toy (request_wire a_request (policy_wire two_targets))
    ≡ ok a_request
request_round_trip_example = request_round_trip toy a_request request_sent

request_build_iff_example :
    (build_lab_coding_integration_request toy a_request.repository_path a_request.commit_oid
        a_request.expected_branch a_request.relative_paths a_request.goal a_request.change_policy
        a_request.max_runtime_seconds
      ≡ ok a_request)
    ↔ (validate_lab_coding_integration_request toy a_request ≡ ok a_request)
request_build_iff_example = request_build_iff toy a_request

result_build_total_example :
    (result : Outcome) × (build_lab_coding_integration_result toy a_request (text odd_id)
      ≡ ok result)
    × (validate_lab_coding_integration_result toy result ≡ ok result)
    × (result.request_id ≡ a_request.request_id)
    × (result.candidate_id ≡ text odd_id)
unfolding is_hex codes all_codes is_hex_lower
result_build_total_example = result_build_total toy a_request odd_id request_valid refl

-- a wire value with nothing in it
abbrev no_fields : Json
no_fields = object_of []

no_fields_refused :
    lab_coding_integration_request_from_wire toy no_fields
    ≡ err (error "request wire" "fields do not exactly match schema")
unfolding opened_contract
no_fields_refused = refl

request_wire_errors_example :
    error_class (error "request wire" "fields do not exactly match schema") ≡ contract_error
request_wire_errors_example =
    request_wire_errors toy no_fields (error "request wire" "fields do not exactly match schema")
      no_fields_refused

abbrev draft_result : Outcome
draft_result = result_of provisional_id (text even_id) (text odd_id)

abbrev a_result : Outcome
a_result =
    result_of (text (identity toy result_id_domain (result_object draft_result))) (text even_id)
      (text odd_id)

result_sent : lab_coding_integration_result_to_wire toy a_result ≡ ok (result_wire a_result)
unfolding opened_contract
result_sent = refl

result_round_trip_example :
    lab_coding_integration_result_from_wire toy (result_wire a_result) ≡ ok a_result
result_round_trip_example = result_round_trip toy a_result result_sent
