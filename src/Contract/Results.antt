-- ===== src/Contract/Results.antt =====
-- Results that are sent as wire values come back (lab_coding_integration_contract.py).
use hands_free_auto_lab_port.Prelude.{
  raise_if-ok, ok-injective, not, ◌∙◌, sym, raise_if, contains, ap, all, arith, >>=-eq-ok, same_set,
  ok, ◌≡◌,
}
use hands_free_auto_lab_port.Contract.Plain.{require_identifier_text, integer-IsPlain, text-IsPlain}
use hands_free_auto_lab_port.Policy.Allowed.{same_value-eq}
use hands_free_auto_lab_port.Contract.Types.{result_schema_version, result_component, Outcome}
use hands_free_auto_lab_port.Checks.{integer, text, same_value, json_value, Sha256}
use hands_free_auto_lab_port.Json.{get_field, field_names, Json}
use hands_free_auto_lab_port.Contract.Wire.{value_of_json, exact_object}
use hands_free_auto_lab_port.Contract.Outcome.{
  result_wire, validate_lab_coding_integration_result, lab_coding_integration_result_from_wire,
  lab_coding_integration_result_to_wire,
}
use hands_free_auto_lab_port.Contract.Checks.{require_identifier}

module _ (H : Sha256) where
  validate_result_same :
      (r : Outcome) {q : Outcome} → validate_lab_coding_integration_result H r ≡ ok q → q ≡ r
  unfolding validate_lab_coding_integration_result
  validate_result_same r h = ground arith

  result_wire_same :
      (r : Outcome) {q : Outcome}
      → validate_lab_coding_integration_result H r ≡ ok q
      → (record {
        component = value_of_json (json_value r.component);
        schema_version = value_of_json (json_value r.schema_version);
        result_id = value_of_json (json_value r.result_id);
        request_id = value_of_json (json_value r.request_id);
        candidate_id = value_of_json (json_value r.candidate_id);
      })
        ≡ r
  unfolding validate_lab_coding_integration_result
  result_wire_same r h =
      let (_, component, h₁) =
        >>=-eq-ok (raise_if (not (same_value r.component (text result_component))) _) _ h in
      let (_, version, h₂) =
        >>=-eq-ok (raise_if (not (same_value r.schema_version (integer result_schema_version))) _) _
          h₁ in
      let (_, result, h₃) = >>=-eq-ok (require_identifier "result_id" 64 r.result_id) _ h₂ in
      let (_, request, h₄) = >>=-eq-ok (require_identifier "request_id" 64 r.request_id) _ h₃ in
      let (_, candidate, _) =
        >>=-eq-ok (require_identifier "candidate_id" 64 r.candidate_id) _ h₄ in
      λ i. record {
        component =
            text-IsPlain
              (same_value-eq r.component (text result_component) (raise_if-ok _ _ component)) i;
        schema_version =
            integer-IsPlain
              (same_value-eq r.schema_version (integer result_schema_version)
                (raise_if-ok _ _ version))
              i;
        result_id = text-IsPlain (require_identifier_text "result_id" 64 r.result_id result).0 i;
        request_id =
            text-IsPlain (require_identifier_text "request_id" 64 r.request_id request).0 i;
        candidate_id =
            text-IsPlain (require_identifier_text "candidate_id" 64 r.candidate_id candidate).0 i;
      }

  result_wire_accepted :
      (r : Outcome)
      → validate_lab_coding_integration_result H r ≡ ok r
      → lab_coding_integration_result_from_wire H (result_wire r) ≡ ok r
  unfolding lab_coding_integration_result_from_wire result_wire exact_object same_set field_names
      all contains get_field
  result_wire_accepted r h =
      ap (validate_lab_coding_integration_result H) (result_wire_same r h) ∙ h

  -- A result that is sent comes back: the wire value of a result that is valid is accepted, and gives
  -- this very result.
  pub result_round_trip :
      (r : Outcome) {wire : Json}
      → lab_coding_integration_result_to_wire H r ≡ ok wire
      → lab_coding_integration_result_from_wire H wire ≡ ok r
  unfolding lab_coding_integration_result_to_wire
  result_round_trip r h =
      let (trusted, valid, h₁) = >>=-eq-ok (validate_lab_coding_integration_result H r) _ h in
      let same = validate_result_same r valid in
      let sent = ap result_wire (sym same) ∙ ok-injective h₁ in
      ap (lab_coding_integration_result_from_wire H) (sym sent)
      ∙ result_wire_accepted r (valid ∙ ap ok same)
