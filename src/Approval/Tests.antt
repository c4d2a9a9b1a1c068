-- ===== src/Approval/Tests.antt =====
-- Records of each kind, and the theorems about them at concrete data.
use hands_free_auto_lab_port.Prelude.{
  type_error, pos, raised, str_eq, err, ok, if◌then◌else◌, true, ◌≡◌, some, ℕ, [], ◌∷◌, List, refl,
  String,
}
use hands_free_auto_lab_port.Approval.Records.{
  check_timestamp, one_of, check_optional_identifier, check_identifier, check_head,
  validate_challenge_record, validate_terminal_record, validate_decision_record,
  validate_approval_record,
}
use hands_free_auto_lab_port.Approval.Checks.{
  validate_timestamp, decode_record, validate_optional_identifier, validate_identifier,
  validate_fixed_string, validate_schema, same_bytes, record_bytes_of,
}
use hands_free_auto_lab_port.Samples.{odd_id, even_id, opened}
use hands_free_auto_lab_port.Approval.Choices.{
  validate_terminal_record-IsTerminal, validate_decision_record-IsDecision, IsTerminal, IsDecision,
}
use hands_free_auto_lab_port.Approval.Accepted.{
  validate_approval_record-IsApproval, validate_challenge_record-IsChallenge, IsChallenge,
  IsApproval,
}
use hands_free_auto_lab_port.Approval.Types.{
  channel, decision_component, terminal_component, approval_component, challenge_component,
  schema_version, Readers,
}
use hands_free_auto_lab_port.Json.{nil, fields_of, object_of, get_field, field_names, Json}

abbrev early : String
early = "2026-01-01T00:00:00+00:00"

abbrev late : String
late = "2026-01-01T00:00:30+00:00"

-- Readers that know one record and two moments, which are thirty seconds apart.
abbrev readers : Json → Readers
readers value = record {
  decode = λ bytes. some "";
  loads = λ s. some value;
  Moment = String;
  fromisoformat = λ s. some s;
  is_aware = λ m. true;
  isoformat = λ m. m;
  instant = λ m. if str_eq m early then pos 0 else pos 30000000;
}

abbrev a_challenge : List (String × Json)
a_challenge =
    ("schema_version", Json.integer schema_version)
    ∷ ("challenge_component", Json.text challenge_component)
    ∷ ("channel", Json.text channel)
    ∷ ("challenge_id", Json.text even_id)
    ∷ ("proposal_id", Json.text odd_id)
    ∷ ("created_at", Json.text early)
    ∷ ("expires_at", Json.text late)
    ∷ []

abbrev an_approval : List (String × Json)
an_approval =
    ("schema_version", Json.integer schema_version)
    ∷ ("approval_component", Json.text approval_component)
    ∷ ("channel", Json.text channel)
    ∷ ("challenge_id", Json.text even_id)
    ∷ ("proposal_id", Json.text odd_id)
    ∷ ("approval_id", Json.text even_id)
    ∷ ("approved_at", Json.text early)
    ∷ ("created_at", Json.text early)
    ∷ ("expires_at", Json.text late)
    ∷ []

-- a decision with whatever is decided
abbrev a_decision : Json → List (String × Json)
a_decision decision =
    ("schema_version", Json.integer schema_version)
    ∷ ("decision_component", Json.text decision_component)
    ∷ ("channel", Json.text channel)
    ∷ ("challenge_id", Json.text even_id)
    ∷ ("proposal_id", Json.text odd_id)
    ∷ ("decision", decision)
    ∷ ("decided_at", Json.text early)
    ∷ ("approval_id", Json.text even_id)
    ∷ []

abbrev a_terminal : List (String × Json)
a_terminal =
    ("schema_version", Json.integer schema_version)
    ∷ ("terminal_component", Json.text terminal_component)
    ∷ ("channel", Json.text channel)
    ∷ ("approval_id", Json.text even_id)
    ∷ ("proposal_id", Json.text odd_id)
    ∷ ("terminal_state", Json.text "revoked")
    ∷ ("terminal_at", Json.text late)
    ∷ ("run_id", Json.null)
    ∷ []

abbrev bytes_of : List (String × Json) → List ℕ
bytes_of fs = record_bytes_of (object_of fs)

-- Unfolding this name opens what a run on records computes with.
opened_records : Unit {0}
unfolding opened field_names get_field record_bytes_of same_bytes validate_schema
    validate_fixed_string validate_identifier validate_optional_identifier decode_record
    validate_timestamp check_head check_identifier check_optional_identifier one_of check_timestamp
    validate_challenge_record validate_decision_record validate_approval_record
    validate_terminal_record
opened_records = tt

challenge_accepted :
    validate_challenge_record (readers (object_of a_challenge)) (bytes_of a_challenge)
    ≡ ok (fields_of a_challenge)
unfolding opened_records
challenge_accepted = refl

approval_accepted :
    validate_approval_record (readers (object_of an_approval)) (bytes_of an_approval)
    ≡ ok (fields_of an_approval)
unfolding opened_records
approval_accepted = refl

decision_accepted :
    validate_decision_record
      (readers (object_of (a_decision (Json.text "approved"))))
      (bytes_of (a_decision (Json.text "approved")))
    ≡ ok (fields_of (a_decision (Json.text "approved")))
unfolding opened_records
decision_accepted = refl

terminal_accepted :
    validate_terminal_record (readers (object_of a_terminal)) (bytes_of a_terminal)
    ≡ ok (fields_of a_terminal)
unfolding opened_records
terminal_accepted = refl

-- A decision that is a list is refused with another exception than the other malformed records.
unhashable_decision :
    validate_decision_record
      (readers (object_of (a_decision (Json.array nil))))
      (bytes_of (a_decision (Json.array nil)))
    ≡ err (raised type_error "" "unhashable type")
unfolding opened_records
unhashable_decision = refl

validate_challenge_record-IsChallenge_example :
    IsChallenge (readers (object_of a_challenge)) (bytes_of a_challenge) (fields_of a_challenge)
validate_challenge_record-IsChallenge_example =
    validate_challenge_record-IsChallenge (readers (object_of a_challenge)) (bytes_of a_challenge)
      challenge_accepted

validate_approval_record-IsApproval_example :
    IsApproval (readers (object_of an_approval)) (bytes_of an_approval) (fields_of an_approval)
validate_approval_record-IsApproval_example =
    validate_approval_record-IsApproval (readers (object_of an_approval)) (bytes_of an_approval)
      approval_accepted

validate_decision_record-IsDecision_example :
    IsDecision
      (readers (object_of (a_decision (Json.text "approved"))))
      (bytes_of (a_decision (Json.text "approved")))
      (fields_of (a_decision (Json.text "approved")))
validate_decision_record-IsDecision_example =
    validate_decision_record-IsDecision (readers (object_of (a_decision (Json.text "approved"))))
      (bytes_of (a_decision (Json.text "approved"))) decision_accepted

validate_terminal_record-IsTerminal_example :
    IsTerminal (readers (object_of a_terminal)) (bytes_of a_terminal) (fields_of a_terminal)
validate_terminal_record-IsTerminal_example =
    validate_terminal_record-IsTerminal (readers (object_of a_terminal)) (bytes_of a_terminal)
      terminal_accepted
