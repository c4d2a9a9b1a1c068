-- ===== src/Approval/Records.antt =====
-- The four records are validated (`validate_..._record` of lab_promotion_approval_state.py).
use hands_free_auto_lab_port.Prelude.{
  type_error, ◌&&◌, str_eq, raised, err, [], ok, ◌∷◌, not, raise_if, none, true, ◌>>◌, ◌>>=◌, Error,
  Result, some, String, ℕ, false, List, Bool, contains, Option,
}
use hands_free_auto_lab_port.Approval.Types.{
  approval_max_lifetime, challenge_max_lifetime, terminal_component, approval_component,
  challenge_component, decision_component, terminal_fields, approval_fields, decision_fields,
  channel, challenge_fields, Readers,
}
use hands_free_auto_lab_port.Approval.Checks.{
  longer_than, error, earlier, validate_fixed_string, validate_identifier, validate_schema,
  decode_record, validate_optional_identifier, validate_timestamp,
}
use hands_free_auto_lab_port.Json.{Fields, get_field, Json}

-- the checks that every record begins with
unfoldable pub check_head : String → String → Fields → Result (Unit {0})
unfolding get_field validate_schema validate_fixed_string
check_head component_name component fs = do
  schema ← get_field "schema_version" fs
  validate_schema schema
  supplied ← get_field component_name fs
  validate_fixed_string component_name supplied component
  supplied_channel ← get_field "channel" fs
  validate_fixed_string "channel" supplied_channel channel

-- `_validate_identifier(name, record[name])`
unfoldable pub check_identifier : String → Fields → Result String
unfolding get_field validate_identifier
check_identifier name fs = do value ← get_field name fs; validate_identifier name value

unfoldable pub check_optional_identifier : String → Fields → Result (Option String)
unfolding get_field validate_optional_identifier
check_optional_identifier name fs = do
  value ← get_field name fs
  validate_optional_identifier name value

-- `value in {...}` for a value of any type; a list or a dictionary cannot be hashed
unfoldable pub one_of : Json → List String → Error → Result String
unfolding contains
one_of (Json.text s) names e = do raise_if (not (contains s names)) e; ok s
one_of (Json.array xs) names e = err (raised type_error "" "unhashable type")
one_of (Json.object fs) names e = err (raised type_error "" "unhashable type")
one_of _ names e = err e

abbrev pub is_some {ℓ} : {A : Type ℓ} → Option A → Bool
is_some none = false
is_some (some x) = true

module _ (R : Readers) where
  -- `_validate_timestamp(name, record[name])`
  unfoldable pub check_timestamp : String → Fields → Result R.Moment
  unfolding get_field validate_timestamp
  check_timestamp name fs = do value ← get_field name fs; validate_timestamp R name value

  unfoldable pub validate_challenge_record : List ℕ → Result Fields
  unfolding decode_record check_head check_identifier check_timestamp
  validate_challenge_record record_bytes = do
    fs ← decode_record R record_bytes challenge_fields "challenge record"
    check_head "challenge_component" challenge_component fs
    _ ← check_identifier "challenge_id" fs
    _ ← check_identifier "proposal_id" fs
    created_at ← check_timestamp "created_at" fs
    expires_at ← check_timestamp "expires_at" fs
    raise_if (not (earlier R created_at expires_at))
        (error "" "expires_at must be later than created_at")
    raise_if (longer_than R challenge_max_lifetime created_at expires_at)
        (error "" "challenge lifetime must not exceed 3 hours")
    ok fs

  unfoldable pub validate_decision_record : List ℕ → Result Fields
  unfolding decode_record check_head check_identifier check_timestamp check_optional_identifier
      get_field one_of
  validate_decision_record record_bytes = do
    fs ← decode_record R record_bytes decision_fields "decision record"
    check_head "decision_component" decision_component fs
    _ ← check_identifier "challenge_id" fs
    _ ← check_identifier "proposal_id" fs
    value ← get_field "decision" fs
    decision ←
        one_of value ("approved" ∷ "rejected" ∷ "expired" ∷ [])
          (error "" "decision must be approved, rejected, or expired")
    _ ← check_timestamp "decided_at" fs
    approval_id ← check_optional_identifier "approval_id" fs
    raise_if (str_eq decision "approved" && not (is_some approval_id))
        (error "" "approved decision requires approval_id")
    raise_if (not (str_eq decision "approved") && is_some approval_id)
        (error "" "non-approved decision requires null approval_id")
    ok fs

  unfoldable pub validate_approval_record : List ℕ → Result Fields
  unfolding decode_record check_head check_identifier check_timestamp
  validate_approval_record record_bytes = do
    fs ← decode_record R record_bytes approval_fields "approval record"
    check_head "approval_component" approval_component fs
    _ ← check_identifier "challenge_id" fs
    _ ← check_identifier "proposal_id" fs
    _ ← check_identifier "approval_id" fs
    approved_at ← check_timestamp "approved_at" fs
    created_at ← check_timestamp "created_at" fs
    expires_at ← check_timestamp "expires_at" fs
    raise_if (earlier R created_at approved_at)
        (error "" "created_at must not be earlier than approved_at")
    raise_if (not (earlier R created_at expires_at))
        (error "" "expires_at must be later than created_at")
    raise_if (longer_than R approval_max_lifetime created_at expires_at)
        (error "" "approval lifetime must not exceed 30 seconds")
    ok fs

  unfoldable pub validate_terminal_record : List ℕ → Result Fields
  unfolding decode_record check_head check_identifier check_timestamp check_optional_identifier
      get_field one_of
  validate_terminal_record record_bytes = do
    fs ← decode_record R record_bytes terminal_fields "terminal record"
    check_head "terminal_component" terminal_component fs
    _ ← check_identifier "approval_id" fs
    _ ← check_identifier "proposal_id" fs
    value ← get_field "terminal_state" fs
    terminal_state ←
        one_of value ("consumed" ∷ "revoked" ∷ "expired" ∷ [])
          (error "" "terminal_state must be consumed, revoked, or expired")
    _ ← check_timestamp "terminal_at" fs
    run_id ← check_optional_identifier "run_id" fs
    raise_if (str_eq terminal_state "consumed" && not (is_some run_id))
        (error "" "consumed terminal requires run_id")
    raise_if (not (str_eq terminal_state "consumed") && is_some run_id)
        (error "" "non-consumed terminal requires null run_id")
    ok fs
