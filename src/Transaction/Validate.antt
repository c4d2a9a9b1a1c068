-- ===== src/Transaction/Validate.antt =====
-- The validation of a snapshot (`_validate_state_invariants`, `_validate_transaction_file` and
-- `validate_lab_promotion_transaction` of lab_promotion_transaction_state.py).
use hands_free_auto_lab_port.Prelude.{
  String, Bool, true, false, not, List, map, pos, eqb_ℤ, Result, ok, raise_if, traverse, ◌>>=◌,
  ◌>>◌, str_eq, is_nil, is_sorted, distinct, any,
}
use hands_free_auto_lab_port.Checks.{integer, text, Sha256}
use hands_free_auto_lab_port.Proposal.{identity, proposal_id_domain, proposal_identity_object}
use hands_free_auto_lab_port.Transaction.Types.{
  State, prepared, applying, verifying, completed, rolled_back, is_known_state, Progress, pending,
  installed, verified, restored, is_known_progress, Risk, write, destructive_high, other,
  TransactionFile, Transaction, transaction_component, transaction_schema_version,
  proposal_file_from_transaction_file,
}
use hands_free_auto_lab_port.Transaction.Checks.{
  error, require_text, require_integer, require_hex_identifier, require_git_head,
  require_repository_path,
}
use hands_free_auto_lab_port.Transaction.Plan.{validate_plan_file}
use hands_free_auto_lab_port.Transaction.Identity.{
  derive_risk, transaction_identity_object, snapshot_identity_object, transaction_id_domain,
  snapshot_id_domain,
}

-- The progress marks that a state permits; the states with no clause of their own permit all.
unfoldable pub permits : State → Progress → Bool
permits prepared pending = true
permits prepared _ = false
permits applying pending = true
permits applying installed = true
permits applying _ = false
permits verifying installed = true
permits verifying verified = true
permits verifying _ = false
permits completed verified = true
permits completed _ = false
permits rolled_back pending = true
permits rolled_back restored = true
permits rolled_back _ = false
permits _ _ = true

-- the message of each state's clause
abbrev pub refusal : State → String
refusal prepared = "PREPARED requires every file to be PENDING"
refusal applying = "APPLYING permits only PENDING or INSTALLED files"
refusal verifying = "VERIFYING requires every file to have been installed"
refusal completed = "COMPLETED requires every file to be VERIFIED"
refusal rolled_back = "ROLLED_BACK requires changed files RESTORED and untouched files PENDING"
refusal _ = ""

-- The clauses on the states: no other state permits less than all the known progress.
unfoldable pub validate_state_invariants : State → List TransactionFile → Result (Unit {0})
unfolding any
validate_state_invariants state files = do
  raise_if (not (is_known_state state)) (error "" "unknown transaction state")
  let progress = map (λ (f : TransactionFile). f.progress) files
  raise_if (any (λ p. not (is_known_progress p)) progress) (error "" "unknown file progress")
  raise_if (any (λ p. not (permits state p)) progress) (error "" (refusal state))

-- the strings of two risk classifications are equal
unfoldable pub same_risk : Risk → Risk → Bool
same_risk write write = true
same_risk destructive_high destructive_high = true
same_risk (other s) (other t) = str_eq s t
same_risk _ _ = false

module _ (H : Sha256) where
  unfoldable pub validate_transaction_file : TransactionFile → Result TransactionFile
  validate_transaction_file f = do
    planned ← validate_plan_file H (proposal_file_from_transaction_file f)
    raise_if (not (is_known_progress f.progress)) (error "" "unknown file progress")
    ok f

  unfoldable pub validate_lab_promotion_transaction : Transaction → Result Transaction
  validate_lab_promotion_transaction t = do
    raise_if (not (str_eq t.component transaction_component))
        (error "" "transaction component mismatch")
    raise_if (not (eqb_ℤ t.schema_version transaction_schema_version))
        (error "" "transaction schema version mismatch")
    transaction_id ← require_hex_identifier "transaction_id" (text t.transaction_id)
    snapshot_id ← require_hex_identifier "snapshot_id" (text t.snapshot_id)
    proposal_id ← require_hex_identifier "proposal_id" (text t.proposal_id)
    candidate_id ← require_hex_identifier "candidate_id" (text t.candidate_id)
    run_id ← require_hex_identifier "run_id" (text t.run_id)
    repository_path ← require_repository_path (text t.repository_path)
    repository_device ← require_integer "repository_device" (integer t.repository_device) (pos 0)
    repository_inode ← require_integer "repository_inode" (integer t.repository_inode) (pos 1)
    branch ← require_text "branch" (text t.branch) false
    head ← require_git_head (text t.head)
    raise_if (is_nil t.files) (error "" "transaction must contain at least one file")
    files ← traverse validate_transaction_file t.files
    let paths = map (λ (f : TransactionFile). f.path) files
    raise_if (not (is_sorted paths)) (error "" "transaction files must be sorted by canonical path")
    raise_if (not (distinct paths)) (error "" "transaction contains duplicate paths")
    let risk = derive_risk files
    raise_if (not (same_risk t.risk_classification risk))
        (error "" "risk classification does not match transaction operations")
    let proposal_files = map proposal_file_from_transaction_file files
    let proposal_object =
        proposal_identity_object candidate_id repository_path repository_device repository_inode
          branch head proposal_files
    raise_if (not (str_eq (identity H proposal_id_domain proposal_object) proposal_id))
        (error "" "transaction proposal binding does not match exact file evidence")
    validate_state_invariants t.state files
    let transaction_object =
        transaction_identity_object proposal_id candidate_id run_id repository_path
          repository_device repository_inode branch head risk files
    raise_if (not (str_eq (identity H transaction_id_domain transaction_object) transaction_id))
        (error "" "transaction_id does not match exact transaction plan")
    let snapshot_object = snapshot_identity_object transaction_id t.state files
    raise_if (not (str_eq (identity H snapshot_id_domain snapshot_object) snapshot_id))
        (error "" "snapshot_id does not match exact transaction state")
    ok t
