-- ===== src/Approval/Accepted.antt =====
-- What a record that is accepted says (lab_promotion_approval_state.py).
use mathlib.Core.Path.{subst}
use hands_free_auto_lab_port.Prelude.{
  raise_if-ok, raise_unless, ok-injective, not, true, false, raise_if, >>=-eq-ok, ok, ◌≡◌, ℕ, List,
  ℤ, pos_part, neg_part, ltb, arith, ◌≤◌, ◌<◌, [], ◌∷◌,
}
use Prim.Native.Nat.{◌+◌}
use hands_free_auto_lab_port.Approval.Fields.{
  check_timestamp_lem, check_identifier_lem, check_head_lem, decode_record-IsRecord, HasMoment,
  HasIdentifier, HasHead, IsRecord,
}
use hands_free_auto_lab_port.Approval.Types.{
  challenge_max_lifetime, approval_max_lifetime, challenge_component, approval_component,
  approval_fields, challenge_fields, Readers,
}
use hands_free_auto_lab_port.Approval.Checks.{longer_than, earlier, decode_record}
use hands_free_auto_lab_port.Approval.Records.{
  check_timestamp, check_identifier, check_head, validate_challenge_record,
  validate_approval_record,
}
use hands_free_auto_lab_port.Json.{Fields}

-- The first instant is before the second.
abbrev pub Precedes : ℤ → ℤ → Type 0
Precedes a b = pos_part a + neg_part b < pos_part b + neg_part a

-- The first instant is not after the second.
abbrev pub NotAfter : ℤ → ℤ → Type 0
NotAfter a b = pos_part a + neg_part b ≤ pos_part b + neg_part a

-- The second instant is at most so many microseconds after the first.
abbrev pub Within : ℕ → ℤ → ℤ → Type 0
Within limit a b = pos_part b + neg_part a ≤ pos_part a + neg_part b + limit

ltb-< : (m n : ℕ) → ltb m n ≡ true → m < n
ltb-< m n h = ground arith

ltb-≤ : (m n : ℕ) → ltb m n ≡ false → n ≤ m
ltb-≤ m n h = ground arith

module _ (R : Readers) where
  -- What a challenge that is accepted holds.
  pub record IsChallenge (bytes : List ℕ) (fs : Fields) : Type 0 where
    pub form :
        IsRecord R bytes
          ("schema_version" ∷ "challenge_component" ∷ "channel" ∷ "challenge_id" ∷ "proposal_id"
            ∷ "created_at" ∷ "expires_at" ∷ [])
          fs
    pub head : HasHead "challenge_component" "hands-free-auto-lab-promotion-challenge-v1" fs
    pub challenge_id : HasIdentifier "challenge_id" fs
    pub proposal_id : HasIdentifier "proposal_id" fs
    pub created_at : R.Moment
    pub created : HasMoment R "created_at" created_at fs
    pub expires_at : R.Moment
    pub expires : HasMoment R "expires_at" expires_at fs
    pub later : Precedes (R.instant created_at) (R.instant expires_at)
    pub lifetime : Within 10800000000 (R.instant created_at) (R.instant expires_at)

  -- A challenge record that is accepted has exactly the fields of a challenge and is their canonical
  -- form, names a challenge and a proposal, and expires after it was created, by at most three hours.
  pub validate_challenge_record-IsChallenge :
      (bytes : List ℕ) {fs : Fields}
      → validate_challenge_record R bytes ≡ ok fs
      → IsChallenge bytes fs
  unfolding validate_challenge_record
  validate_challenge_record-IsChallenge bytes h =
      let (gs, decoded, h₁) =
        >>=-eq-ok (decode_record R bytes challenge_fields "challenge record") _ h in
      let (_, head, h₂) =
        >>=-eq-ok (check_head "challenge_component" challenge_component gs) _ h₁ in
      let (_, challenge, h₃) = >>=-eq-ok (check_identifier "challenge_id" gs) _ h₂ in
      let (_, proposal, h₄) = >>=-eq-ok (check_identifier "proposal_id" gs) _ h₃ in
      let (c, created, h₅) = >>=-eq-ok (check_timestamp R "created_at" gs) _ h₄ in
      let (e, expires, h₆) = >>=-eq-ok (check_timestamp R "expires_at" gs) _ h₅ in
      let (_, later, h₇) = >>=-eq-ok (raise_if (not (earlier R c e)) _) _ h₆ in
      let (_, short, h₈) = >>=-eq-ok (raise_if (longer_than R challenge_max_lifetime c e) _) _ h₇ in
      subst (IsChallenge bytes) (ok-injective h₈) (record {
        form = decode_record-IsRecord R bytes challenge_fields "challenge record" decoded;
        head = check_head_lem _ _ gs head;
        challenge_id = check_identifier_lem _ gs challenge;
        proposal_id = check_identifier_lem _ gs proposal;
        created_at = c;
        created = check_timestamp_lem R _ gs created;
        expires_at = e;
        expires = check_timestamp_lem R _ gs expires;
        later = ltb-< _ _ (raise_if-ok _ _ later);
        lifetime = ltb-≤ _ _ (raise_unless _ _ short);
      })

  -- What an approval that is accepted holds.
  pub record IsApproval (bytes : List ℕ) (fs : Fields) : Type 0 where
    pub form :
        IsRecord R bytes
          ("schema_version" ∷ "approval_component" ∷ "channel" ∷ "challenge_id" ∷ "proposal_id"
            ∷ "approval_id" ∷ "approved_at" ∷ "created_at" ∷ "expires_at" ∷ [])
          fs
    pub head : HasHead "approval_component" "hands-free-auto-lab-promotion-approval-v1" fs
    pub challenge_id : HasIdentifier "challenge_id" fs
    pub proposal_id : HasIdentifier "proposal_id" fs
    pub approval_id : HasIdentifier "approval_id" fs
    pub approved_at : R.Moment
    pub approved : HasMoment R "approved_at" approved_at fs
    pub created_at : R.Moment
    pub created : HasMoment R "created_at" created_at fs
    pub expires_at : R.Moment
    pub expires : HasMoment R "expires_at" expires_at fs
    pub not_before : NotAfter (R.instant approved_at) (R.instant created_at)
    pub later : Precedes (R.instant created_at) (R.instant expires_at)
    pub lifetime : Within 30000000 (R.instant created_at) (R.instant expires_at)

  -- An approval record that is accepted has exactly the fields of an approval and is their canonical
  -- form, names a challenge, a proposal and an approval, was not created before it was approved, and
  -- expires after it was created, by at most thirty seconds.
  pub validate_approval_record-IsApproval :
      (bytes : List ℕ) {fs : Fields}
      → validate_approval_record R bytes ≡ ok fs
      → IsApproval bytes fs
  unfolding validate_approval_record
  validate_approval_record-IsApproval bytes h =
      let (gs, decoded, h₁) =
        >>=-eq-ok (decode_record R bytes approval_fields "approval record") _ h in
      let (_, head, h₂) = >>=-eq-ok (check_head "approval_component" approval_component gs) _ h₁ in
      let (_, challenge, h₃) = >>=-eq-ok (check_identifier "challenge_id" gs) _ h₂ in
      let (_, proposal, h₄) = >>=-eq-ok (check_identifier "proposal_id" gs) _ h₃ in
      let (_, approval, h₅) = >>=-eq-ok (check_identifier "approval_id" gs) _ h₄ in
      let (a, approved, h₆) = >>=-eq-ok (check_timestamp R "approved_at" gs) _ h₅ in
      let (c, created, h₇) = >>=-eq-ok (check_timestamp R "created_at" gs) _ h₆ in
      let (e, expires, h₈) = >>=-eq-ok (check_timestamp R "expires_at" gs) _ h₇ in
      let (_, ordered, h₉) = >>=-eq-ok (raise_if (earlier R c a) _) _ h₈ in
      let (_, later, h₁₀) = >>=-eq-ok (raise_if (not (earlier R c e)) _) _ h₉ in
      let (_, short, h₁₁) =
        >>=-eq-ok (raise_if (longer_than R approval_max_lifetime c e) _) _ h₁₀ in
      subst (IsApproval bytes) (ok-injective h₁₁) (record {
        form = decode_record-IsRecord R bytes approval_fields "approval record" decoded;
        head = check_head_lem _ _ gs head;
        challenge_id = check_identifier_lem _ gs challenge;
        proposal_id = check_identifier_lem _ gs proposal;
        approval_id = check_identifier_lem _ gs approval;
        approved_at = a;
        approved = check_timestamp_lem R _ gs approved;
        created_at = c;
        created = check_timestamp_lem R _ gs created;
        expires_at = e;
        expires = check_timestamp_lem R _ gs expires;
        not_before = ltb-≤ _ _ (raise_unless _ _ ordered);
        later = ltb-< _ _ (raise_if-ok _ _ later);
        lifetime = ltb-≤ _ _ (raise_unless _ _ short);
      })
