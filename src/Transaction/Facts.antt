-- ===== src/Transaction/Facts.antt =====
-- What a validated snapshot is known to satisfy, check by check.
use hands_free_auto_lab_port.Prelude.{
  String, ◌≡◌, true, false, List, [], ◌∷◌, map, pos, eqb_ℤ, ok, traverse, >>=-eq-ok, Result-cases,
  inl, inr, str_eq, is_nil, is_sorted, distinct, arith,
}
use hands_free_auto_lab_port.Checks.{integer, text, Sha256}
use hands_free_auto_lab_port.Proposal.{identity, proposal_id_domain, proposal_identity_object}
use hands_free_auto_lab_port.Transaction.Types.{
  Transaction, TransactionFile, transaction_component, transaction_schema_version,
  proposal_file_from_transaction_file,
}
use hands_free_auto_lab_port.Transaction.Checks.{
  require_text, require_integer, require_hex_identifier, require_git_head, require_repository_path,
}
use hands_free_auto_lab_port.Transaction.Identity.{
  derive_risk, transaction_identity_object, snapshot_identity_object, transaction_id_domain,
  snapshot_id_domain,
}
use hands_free_auto_lab_port.Transaction.Validate.{
  validate_state_invariants, same_risk, validate_transaction_file,
  validate_lab_promotion_transaction,
}

abbrev pub paths : List TransactionFile → List String
paths = map (λ (f : TransactionFile). f.path)

module _ (H : Sha256) where
  -- the identities that a snapshot's contents have
  abbrev pub proposal_identity : Transaction → String
  proposal_identity t = identity H proposal_id_domain (
      proposal_identity_object t.candidate_id t.repository_path t.repository_device
        t.repository_inode t.branch t.head (map proposal_file_from_transaction_file t.files))

  abbrev pub transaction_identity : Transaction → String
  transaction_identity t = identity H transaction_id_domain (
      transaction_identity_object t.proposal_id t.candidate_id t.run_id t.repository_path
        t.repository_device t.repository_inode t.branch t.head (derive_risk t.files) t.files)

  abbrev pub snapshot_identity : Transaction → String
  snapshot_identity t =
      identity H snapshot_id_domain (snapshot_identity_object t.transaction_id t.state t.files)

  pub record IsValid (t : Transaction) : Type 0 where
    pub component : str_eq t.component transaction_component ≡ true
    pub schema_version : eqb_ℤ t.schema_version transaction_schema_version ≡ true
    pub transaction_id :
        require_hex_identifier "transaction_id" (text t.transaction_id) ≡ ok t.transaction_id
    pub snapshot_id : require_hex_identifier "snapshot_id" (text t.snapshot_id) ≡ ok t.snapshot_id
    pub proposal_id : require_hex_identifier "proposal_id" (text t.proposal_id) ≡ ok t.proposal_id
    pub candidate_id :
        require_hex_identifier "candidate_id" (text t.candidate_id) ≡ ok t.candidate_id
    pub run_id : require_hex_identifier "run_id" (text t.run_id) ≡ ok t.run_id
    pub repository_path : require_repository_path (text t.repository_path) ≡ ok t.repository_path
    pub repository_device :
        require_integer "repository_device" (integer t.repository_device) (pos 0)
        ≡ ok t.repository_device
    pub repository_inode :
        require_integer "repository_inode" (integer t.repository_inode) (pos 1)
        ≡ ok t.repository_inode
    pub branch : require_text "branch" (text t.branch) false ≡ ok t.branch
    pub head : require_git_head (text t.head) ≡ ok t.head
    pub some_file : is_nil t.files ≡ false
    pub files : traverse (validate_transaction_file H) t.files ≡ ok t.files
    pub sorted : is_sorted (paths t.files) ≡ true
    pub distinct_paths : distinct (paths t.files) ≡ true
    pub risk : same_risk t.risk_classification (derive_risk t.files) ≡ true
    pub binding : str_eq (proposal_identity t) t.proposal_id ≡ true
    pub invariants : validate_state_invariants t.state t.files ≡ ok tt
    pub transaction_binding : str_eq (transaction_identity t) t.transaction_id ≡ true
    pub snapshot_binding : str_eq (snapshot_identity t) t.snapshot_id ≡ true

  validate_transaction_file_same :
      (f : TransactionFile) {g : TransactionFile} → validate_transaction_file H f ≡ ok g → g ≡ f
  unfolding validate_transaction_file
  validate_transaction_file_same f h = ground arith

  traverse_same :
      (fs : List TransactionFile) {gs : List TransactionFile}
      → traverse (validate_transaction_file H) fs ≡ ok gs
      → gs ≡ fs
  unfolding traverse
  traverse_same [] h = ground arith
  traverse_same (f ∷ fs) h =
      let (g, eg, h') = >>=-eq-ok (validate_transaction_file H f) _ h in
      let (gs', egs, e) = >>=-eq-ok (traverse (validate_transaction_file H) fs) _ h' in
      cc (e, validate_transaction_file_same f eg, traverse_same fs egs)

  -- A snapshot that passes all checks is returned by the validation.
  pub IsValid-validate :
      (t : Transaction) → IsValid t → validate_lab_promotion_transaction H t ≡ ok t
  unfolding validate_lab_promotion_transaction
  IsValid-validate t v = ground arith

  -- What the validation returns is the snapshot that it was given, and all checks passed.
  pub validate-IsValid :
      (t : Transaction) {u : Transaction}
      → validate_lab_promotion_transaction H t ≡ ok u
      → (u ≡ t) × IsValid t
  unfolding validate_lab_promotion_transaction require_hex_identifier require_text require_integer
      require_git_head require_repository_path
  validate-IsValid t h = elim (Result-cases (traverse (validate_transaction_file H) t.files)) [
    | inl (gs, e) ↦ ground (arith, traverse_same t.files e)
    | inr (x, e) ↦ ground arith
  ]
