-- ===== src/Approval/Build.antt =====
-- The four records are built (`build_..._record` of lab_promotion_approval_state.py).
use hands_free_auto_lab_port.Prelude.{[], ok, ◌∷◌, ◌>>=◌, Option, Result, String, ℕ, List}
use hands_free_auto_lab_port.Proposal.{json_text}
use hands_free_auto_lab_port.Approval.Types.{
  channel, challenge_component, terminal_component, decision_component, approval_component,
  schema_version, Readers,
}
use hands_free_auto_lab_port.Json.{object_of, Fields, Json}
use hands_free_auto_lab_port.Approval.Records.{
  validate_terminal_record, validate_approval_record, validate_challenge_record,
  validate_decision_record,
}
use hands_free_auto_lab_port.Approval.Checks.{record_bytes_of}

-- `_build_record`
unfoldable pub build_record : Json → (List ℕ → Result Fields) → Result (List ℕ)
unfolding record_bytes_of
build_record value validator = do _ ← validator (record_bytes_of value); ok (record_bytes_of value)

module _ (R : Readers) where
  unfoldable pub build_challenge_record : String → String → String → String → Result (List ℕ)
  unfolding build_record validate_challenge_record
  build_challenge_record challenge_id proposal_id created_at expires_at =
      build_record
        (object_of (
          ("schema_version", Json.integer schema_version)
          ∷ ("challenge_component", Json.text challenge_component)
          ∷ ("channel", Json.text channel)
          ∷ ("challenge_id", Json.text challenge_id)
          ∷ ("proposal_id", Json.text proposal_id)
          ∷ ("created_at", Json.text created_at)
          ∷ ("expires_at", Json.text expires_at)
          ∷ []))
        (validate_challenge_record R)

  unfoldable pub build_decision_record :
      String → String → String → String → Option String → Result (List ℕ)
  unfolding build_record validate_decision_record
  build_decision_record challenge_id proposal_id decision decided_at approval_id =
      build_record
        (object_of (
          ("schema_version", Json.integer schema_version)
          ∷ ("decision_component", Json.text decision_component)
          ∷ ("channel", Json.text channel)
          ∷ ("challenge_id", Json.text challenge_id)
          ∷ ("proposal_id", Json.text proposal_id)
          ∷ ("decision", Json.text decision)
          ∷ ("decided_at", Json.text decided_at)
          ∷ ("approval_id", json_text approval_id)
          ∷ []))
        (validate_decision_record R)

  unfoldable pub build_approval_record :
      String → String → String → String → String → String → Result (List ℕ)
  unfolding build_record validate_approval_record
  build_approval_record challenge_id proposal_id approval_id approved_at created_at expires_at =
      build_record
        (object_of (
          ("schema_version", Json.integer schema_version)
          ∷ ("approval_component", Json.text approval_component)
          ∷ ("channel", Json.text channel)
          ∷ ("challenge_id", Json.text challenge_id)
          ∷ ("proposal_id", Json.text proposal_id)
          ∷ ("approval_id", Json.text approval_id)
          ∷ ("approved_at", Json.text approved_at)
          ∷ ("created_at", Json.text created_at)
          ∷ ("expires_at", Json.text expires_at)
          ∷ []))
        (validate_approval_record R)

  unfoldable pub build_terminal_record :
      String → String → String → String → Option String → Result (List ℕ)
  unfolding build_record validate_terminal_record
  build_terminal_record approval_id proposal_id terminal_state terminal_at run_id =
      build_record
        (object_of (
          ("schema_version", Json.integer schema_version)
          ∷ ("terminal_component", Json.text terminal_component)
          ∷ ("channel", Json.text channel)
          ∷ ("approval_id", Json.text approval_id)
          ∷ ("proposal_id", Json.text proposal_id)
          ∷ ("terminal_state", Json.text terminal_state)
          ∷ ("terminal_at", Json.text terminal_at)
          ∷ ("run_id", json_text run_id)
          ∷ []))
        (validate_terminal_record R)
