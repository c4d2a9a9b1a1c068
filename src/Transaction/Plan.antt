-- ===== src/Transaction/Plan.antt =====
-- The checks on a planned file and on the proposal (`_validate_plan_file` and
-- `_validated_proposal` of lab_promotion_transaction_state.py).
use hands_free_auto_lab_port.Prelude.{
  Bool, true, false, not, ◌||◌, Option, none, some, map, pos, eqb_ℤ, Result, ok, raise_if, traverse,
  ◌>>=◌, ◌>>◌, str_eq, encode, length, is_nil, is_sorted, distinct, contains,
}
use hands_free_auto_lab_port.Checks.{integer, text, optional_text, optional_integer, Sha256}
use hands_free_auto_lab_port.Proposal.{
  Operation, add, modify, unsupported, ProposalFile, Proposal, allowed_source_kinds,
  promotion_proposal_component, promotion_proposal_schema_version, identity, proposal_id_domain,
  proposal_identity_object,
}
use hands_free_auto_lab_port.Transaction.Checks.{
  error, require_text, require_integer, require_hex_identifier, require_plain_mode, require_sha256,
  require_git_head, require_repository_path, require_relative_path,
}

abbrev is_unsupported : Operation → Bool
is_unsupported add = false
is_unsupported modify = false
is_unsupported (unsupported _) = true

abbrev is_some {ℓ} : {A : Type ℓ} → Option A → Bool
is_some none = false
is_some (some _) = true

-- the part that turns on the operation; the last clause is the `else` of the source
unfoldable pub validate_before : Operation → ProposalFile → Result (Unit {0})
validate_before add f = do
  raise_if f.before_exists (error f.path "ADD requires absent before-state")
  raise_if (is_some f.before_bytes || (is_some f.before_sha256 || is_some f.before_mode))
      (error f.path "ADD before-state metadata must be null")
  after_mode ← require_plain_mode "after_mode" (integer f.after_mode)
  raise_if (not (eqb_ℤ after_mode (pos 0o644))) (error f.path "ADD after_mode must be 0644")
validate_before _ f = do
  raise_if (not f.before_exists) (error f.path "MODIFY requires existing before-state")
  before_bytes ← require_integer "before_bytes" (optional_integer f.before_bytes) (pos 0)
  before_sha256 ← require_sha256 "before_sha256" (optional_text f.before_sha256)
  before_mode ← require_plain_mode "before_mode" (optional_integer f.before_mode)
  after_mode ← require_plain_mode "after_mode" (integer f.after_mode)
  raise_if (not (eqb_ℤ after_mode before_mode))
      (error f.path "MODIFY after_mode must preserve before_mode")

module _ (H : Sha256) where
  unfoldable pub validate_plan_file : ProposalFile → Result ProposalFile
  validate_plan_file f = do
    raise_if (is_unsupported f.operation) (error "" "unsupported promotion operation")
    path ← require_relative_path (text f.path)
    before ← validate_before f.operation f
    after_bytes ← require_integer "after_bytes" (integer f.after_bytes) (pos 0)
    after_sha256 ← require_sha256 "after_sha256" (text f.after_sha256)
    after_content ← require_text "after_content" (text f.after_content) true
    raise_if (not (eqb_ℤ (pos (length (encode after_content))) after_bytes))
        (error path "after byte count mismatch")
    raise_if (not (str_eq (H.hexdigest (encode after_content)) after_sha256))
        (error path "after SHA-256 mismatch")
    raise_if (not (contains f.source_kind allowed_source_kinds))
        (error "source_kind" "must be one of the exact allowed values")
    source_id ← require_hex_identifier "source_id" (text f.source_id)
    ok f

  unfoldable pub validated_proposal : Proposal → Result Proposal
  validated_proposal p = do
    raise_if (not (str_eq p.component promotion_proposal_component))
        (error "" "proposal component mismatch")
    raise_if (not (eqb_ℤ p.schema_version promotion_proposal_schema_version))
        (error "" "proposal schema version mismatch")
    candidate_id ← require_hex_identifier "candidate_id" (text p.candidate_id)
    repository_path ← require_repository_path (text p.repository_path)
    repository_device ← require_integer "repository_device" (integer p.repository_device) (pos 0)
    repository_inode ← require_integer "repository_inode" (integer p.repository_inode) (pos 1)
    branch ← require_text "branch" (text p.branch) false
    head ← require_git_head (text p.head)
    proposal_id ← require_hex_identifier "proposal_id" (text p.proposal_id)
    raise_if (is_nil p.files) (error "" "proposal must contain at least one file")
    files ← traverse validate_plan_file p.files
    let paths = map (λ (f : ProposalFile). f.path) files
    raise_if (not (is_sorted paths)) (error "" "proposal files must be sorted by canonical path")
    raise_if (not (distinct paths)) (error "" "proposal contains duplicate paths")
    let value =
        proposal_identity_object candidate_id repository_path repository_device repository_inode
          branch head files
    raise_if (not (str_eq (identity H proposal_id_domain value) proposal_id))
        (error "" "proposal identity does not match exact proposal evidence")
    ok p
