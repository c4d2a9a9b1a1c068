-- ===== src/Approval/Choices.antt =====
-- What the two records of a choice say: a decision, and the end of an approval
-- (lab_promotion_approval_state.py).
use mathlib.Core.Path.{subst}
use hands_free_auto_lab_port.Prelude.{
  raise_unless, ap, ◌∙◌, eq_iff, ok-injective, arith, inr, raise_if, inl, true, contains, false,
  not, ◌≢◌, ◌&&◌, >>=-eq-ok, str_eq, ◌⊎◌, ok, ◌≡◌, Option, ℕ, [], String, List, ◌∷◌,
}
use hands_free_auto_lab_port.Approval.Fields.{
  check_identifier_lem, check_head_lem, decode_record-IsRecord, one_of_lem,
  check_optional_identifier_lem, HasText, HasHead, IsRecord, HasIdentifier,
}
use hands_free_auto_lab_port.Approval.Records.{
  check_timestamp, one_of, check_identifier, is_some, check_head, check_optional_identifier,
  validate_decision_record, validate_terminal_record,
}
use hands_free_auto_lab_port.Json.{get_field, Fields, Json}
use hands_free_auto_lab_port.Approval.Types.{
  decision_component, terminal_component, decision_fields, terminal_fields, Readers,
}
use hands_free_auto_lab_port.Approval.Checks.{decode_record}

-- A field holds an identifier if the choice is the one that wants it, and null if it is another.
abbrev pub GoesWith : String → String → String → Fields → Type 0
GoesWith choice wanted name fs =
    ((choice ≡ wanted) × HasIdentifier name fs)
    ⊎ ((choice ≢ wanted) × (get_field name fs ≡ ok Json.null))

pub GoesWith-checks :
    (choice wanted name : String) (fs : Fields) (o : Option String)
    → check_optional_identifier name fs ≡ ok o
    → (str_eq choice wanted && not (is_some o)) ≡ false
    → (not (str_eq choice wanted) && is_some o) ≡ false
    → GoesWith choice wanted name fs
GoesWith-checks choice wanted name fs o read given absent =
    elim (check_optional_identifier_lem name fs o read) [
      | inl (empty, is_null) ↦ inr ((λ e. ground (arith, eq_iff choice wanted)), is_null)
      | inr (full, id) ↦ inl ((eq_iff choice wanted).0 (ground arith), id)
    ]

module _ (R : Readers) where
  -- What a decision that is accepted holds.
  pub record IsDecision (bytes : List ℕ) (fs : Fields) : Type 0 where
    pub form :
        IsRecord R bytes
          ("schema_version" ∷ "decision_component" ∷ "channel" ∷ "challenge_id" ∷ "proposal_id"
            ∷ "decision" ∷ "decided_at" ∷ "approval_id" ∷ [])
          fs
    pub head : HasHead "decision_component" "hands-free-auto-lab-promotion-decision-v1" fs
    pub challenge_id : HasIdentifier "challenge_id" fs
    pub proposal_id : HasIdentifier "proposal_id" fs
    pub decision : String
    pub decided : HasText "decision" decision fs
    pub known : contains decision ("approved" ∷ "rejected" ∷ "expired" ∷ []) ≡ true
    pub approval_id : GoesWith decision "approved" "approval_id" fs

  -- A decision record that is accepted has exactly the fields of a decision and is their canonical
  -- form, names a challenge and a proposal, decides in one of the three ways, and names an approval
  -- if it approves and none if it does not.
  pub validate_decision_record-IsDecision :
      (bytes : List ℕ) {fs : Fields}
      → validate_decision_record R bytes ≡ ok fs
      → IsDecision bytes fs
  unfolding validate_decision_record
  validate_decision_record-IsDecision bytes h =
      let (gs, decoded, h₁) =
        >>=-eq-ok (decode_record R bytes decision_fields "decision record") _ h in
      let (_, head, h₂) = >>=-eq-ok (check_head "decision_component" decision_component gs) _ h₁ in
      let (_, challenge, h₃) = >>=-eq-ok (check_identifier "challenge_id" gs) _ h₂ in
      let (_, proposal, h₄) = >>=-eq-ok (check_identifier "proposal_id" gs) _ h₃ in
      let (value, held, h₅) = >>=-eq-ok (get_field "decision" gs) _ h₄ in
      let (decision, chosen, h₆) =
        >>=-eq-ok (one_of value ("approved" ∷ "rejected" ∷ "expired" ∷ []) _) _ h₅ in
      let (_, _, h₇) = >>=-eq-ok (check_timestamp R "decided_at" gs) _ h₆ in
      let (o, read, h₈) = >>=-eq-ok (check_optional_identifier "approval_id" gs) _ h₇ in
      let (_, given, h₉) =
        >>=-eq-ok (raise_if (str_eq decision "approved" && not (is_some o)) _) _ h₈ in
      let (_, absent, h₁₀) =
        >>=-eq-ok (raise_if (not (str_eq decision "approved") && is_some o) _) _ h₉ in
      let (value_is, known) = one_of_lem value _ _ chosen in
      subst (IsDecision bytes) (ok-injective h₁₀) (record {
        form = decode_record-IsRecord R bytes decision_fields "decision record" decoded;
        head = check_head_lem _ _ gs head;
        challenge_id = check_identifier_lem _ gs challenge;
        proposal_id = check_identifier_lem _ gs proposal;
        decision = decision;
        decided = held ∙ ap ok value_is;
        known = known;
        approval_id =
            GoesWith-checks decision "approved" "approval_id" gs o read (raise_unless _ _ given)
              (raise_unless _ _ absent);
      })

  -- What a terminal record that is accepted holds.
  pub record IsTerminal (bytes : List ℕ) (fs : Fields) : Type 0 where
    pub form :
        IsRecord R bytes
          ("schema_version" ∷ "terminal_component" ∷ "channel" ∷ "approval_id" ∷ "proposal_id"
            ∷ "terminal_state" ∷ "terminal_at" ∷ "run_id" ∷ [])
          fs
    pub head : HasHead "terminal_component" "hands-free-auto-lab-promotion-terminal-v1" fs
    pub approval_id : HasIdentifier "approval_id" fs
    pub proposal_id : HasIdentifier "proposal_id" fs
    pub terminal_state : String
    pub ended : HasText "terminal_state" terminal_state fs
    pub known : contains terminal_state ("consumed" ∷ "revoked" ∷ "expired" ∷ []) ≡ true
    pub run_id : GoesWith terminal_state "consumed" "run_id" fs

  -- A terminal record that is accepted has exactly the fields of a terminal record and is their
  -- canonical form, names an approval and a proposal, ends in one of the three ways, and names a run
  -- if the approval was consumed and none if it was not.
  pub validate_terminal_record-IsTerminal :
      (bytes : List ℕ) {fs : Fields}
      → validate_terminal_record R bytes ≡ ok fs
      → IsTerminal bytes fs
  unfolding validate_terminal_record
  validate_terminal_record-IsTerminal bytes h =
      let (gs, decoded, h₁) =
        >>=-eq-ok (decode_record R bytes terminal_fields "terminal record") _ h in
      let (_, head, h₂) = >>=-eq-ok (check_head "terminal_component" terminal_component gs) _ h₁ in
      let (_, approval, h₃) = >>=-eq-ok (check_identifier "approval_id" gs) _ h₂ in
      let (_, proposal, h₄) = >>=-eq-ok (check_identifier "proposal_id" gs) _ h₃ in
      let (value, held, h₅) = >>=-eq-ok (get_field "terminal_state" gs) _ h₄ in
      let (state, chosen, h₆) =
        >>=-eq-ok (one_of value ("consumed" ∷ "revoked" ∷ "expired" ∷ []) _) _ h₅ in
      let (_, _, h₇) = >>=-eq-ok (check_timestamp R "terminal_at" gs) _ h₆ in
      let (o, read, h₈) = >>=-eq-ok (check_optional_identifier "run_id" gs) _ h₇ in
      let (_, given, h₉) =
        >>=-eq-ok (raise_if (str_eq state "consumed" && not (is_some o)) _) _ h₈ in
      let (_, absent, h₁₀) =
        >>=-eq-ok (raise_if (not (str_eq state "consumed") && is_some o) _) _ h₉ in
      let (value_is, known) = one_of_lem value _ _ chosen in
      subst (IsTerminal bytes) (ok-injective h₁₀) (record {
        form = decode_record-IsRecord R bytes terminal_fields "terminal record" decoded;
        head = check_head_lem _ _ gs head;
        approval_id = check_identifier_lem _ gs approval;
        proposal_id = check_identifier_lem _ gs proposal;
        terminal_state = state;
        ended = held ∙ ap ok value_is;
        known = known;
        run_id =
            GoesWith-checks state "consumed" "run_id" gs o read (raise_unless _ _ given)
              (raise_unless _ _ absent);
      })
