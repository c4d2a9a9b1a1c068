-- ===== src/Transaction/Built.antt =====
-- Transactions that are built from a proposal (`build_lab_promotion_transaction` of
-- lab_promotion_transaction_state.py).
use hands_free_auto_lab_port.Prelude.{
  String, ◌∙◌, ◌≡◌, refl, ap, true, false, List, [], ◌∷◌, All, map, pos, eqb_ℤ, ok, >>=-eq-ok,
  Result-cases, inl, inr, traverse, str_eq, eq_refl, is_nil, is_sorted, distinct, arith,
}
use hands_free_auto_lab_port.Checks.{Sha256, text, integer}
use hands_free_auto_lab_port.Proposal.{
  Proposal, ProposalFile, identity, proposal_identity_object, proposal_id_domain,
  promotion_proposal_component, promotion_proposal_schema_version,
}
use hands_free_auto_lab_port.Transaction.Types.{
  prepared, transaction_component, TransactionFile, proposal_file_from_transaction_file,
}
use hands_free_auto_lab_port.Transaction.Checks.{
  require_hex_identifier, require_repository_path, require_integer, require_text, require_git_head,
}
use hands_free_auto_lab_port.Transaction.Plan.{validate_plan_file, validated_proposal}
use hands_free_auto_lab_port.Transaction.Identity.{derive_risk}
use hands_free_auto_lab_port.Transaction.Validate.{validate_transaction_file, same_risk}
use hands_free_auto_lab_port.Transaction.Facts.{paths, IsValid, IsValid-validate}
use hands_free_auto_lab_port.Transaction.Rules.{Permitted, Holds-validate_state_invariants}
use hands_free_auto_lab_port.Transaction.Success.{hex_of_identity}
use hands_free_auto_lab_port.Transaction.Build.{
  pending_file, prepared_transaction, build_lab_promotion_transaction,
}

-- A planned file survives the trip into a transaction and back.
pub plan_of_pending : (f : ProposalFile) → proposal_file_from_transaction_file (pending_file f) ≡ f
unfolding proposal_file_from_transaction_file pending_file
plan_of_pending f = refl

map-plan_of_pending :
    (fs : List ProposalFile) → map proposal_file_from_transaction_file (map pending_file fs) ≡ fs
map-plan_of_pending [] = refl
map-plan_of_pending (f ∷ fs) = cc (plan_of_pending f, map-plan_of_pending fs)

paths-pending :
    (fs : List ProposalFile) → paths (map pending_file fs) ≡ map (λ (f : ProposalFile). f.path) fs
unfolding pending_file
paths-pending [] = refl
paths-pending (f ∷ fs) = cc (paths-pending fs)

is_nil-map : (fs : List ProposalFile) → is_nil (map pending_file fs) ≡ is_nil fs
is_nil-map [] = refl
is_nil-map (f ∷ fs) = refl

pending-Holds :
    (fs : List ProposalFile)
    → All (λ (f : TransactionFile). Permitted prepared f.progress) (map pending_file fs)
unfolding pending_file
pending-Holds [] = tt
pending-Holds (f ∷ fs) = (refl, pending-Holds fs)

same_risk_derived : (fs : List TransactionFile) → same_risk (derive_risk fs) (derive_risk fs) ≡ true
unfolding same_risk derive_risk
same_risk_derived fs = ground arith

module _ (H : Sha256) where
  -- The checks of a proposal, one by one.
  pub record IsProposal (p : Proposal) : Type 0 where
    pub component : str_eq p.component promotion_proposal_component ≡ true
    pub schema_version : eqb_ℤ p.schema_version promotion_proposal_schema_version ≡ true
    pub candidate_id :
        require_hex_identifier "candidate_id" (text p.candidate_id) ≡ ok p.candidate_id
    pub repository_path : require_repository_path (text p.repository_path) ≡ ok p.repository_path
    pub repository_device :
        require_integer "repository_device" (integer p.repository_device) (pos 0)
        ≡ ok p.repository_device
    pub repository_inode :
        require_integer "repository_inode" (integer p.repository_inode) (pos 1)
        ≡ ok p.repository_inode
    pub branch : require_text "branch" (text p.branch) false ≡ ok p.branch
    pub head : require_git_head (text p.head) ≡ ok p.head
    pub proposal_id : require_hex_identifier "proposal_id" (text p.proposal_id) ≡ ok p.proposal_id
    pub some_file : is_nil p.files ≡ false
    pub files : traverse (validate_plan_file H) p.files ≡ ok p.files
    pub sorted : is_sorted (map (λ (f : ProposalFile). f.path) p.files) ≡ true
    pub distinct_paths : distinct (map (λ (f : ProposalFile). f.path) p.files) ≡ true
    pub binding :
        str_eq
          (identity H proposal_id_domain (
            proposal_identity_object p.candidate_id p.repository_path p.repository_device
              p.repository_inode p.branch p.head p.files))
          p.proposal_id
        ≡ true

  validate_plan_file_same :
      (f : ProposalFile) {g : ProposalFile} → validate_plan_file H f ≡ ok g → g ≡ f
  unfolding validate_plan_file
  validate_plan_file_same f h = ground arith

  traverse_plan_same :
      (fs : List ProposalFile) {gs : List ProposalFile}
      → traverse (validate_plan_file H) fs ≡ ok gs
      → gs ≡ fs
  unfolding traverse
  traverse_plan_same [] h = ground arith
  traverse_plan_same (f ∷ fs) h =
      let (g, eg, h') = >>=-eq-ok (validate_plan_file H f) _ h in
      let (gs', egs, e) = >>=-eq-ok (traverse (validate_plan_file H) fs) _ h' in
      cc (e, validate_plan_file_same f eg, traverse_plan_same fs egs)

  pub validated_proposal-IsProposal :
      (p : Proposal) {q : Proposal} → validated_proposal H p ≡ ok q → (q ≡ p) × IsProposal p
  unfolding validated_proposal require_hex_identifier require_text require_integer require_git_head
      require_repository_path
  validated_proposal-IsProposal p h =
      elim (Result-cases (traverse (validate_plan_file H) p.files)) [
        | inl (gs, e) ↦ ground (arith, traverse_plan_same p.files e)
        | inr (x, e) ↦ ground arith
      ]

  pending_file_validates :
      (f : ProposalFile)
      → validate_plan_file H f ≡ ok f
      → validate_transaction_file H (pending_file f) ≡ ok (pending_file f)
  unfolding validate_transaction_file
  pending_file_validates f h = rw (plan_of_pending, h) (unfold pending_file in refl)

  traverse-pending :
      (fs : List ProposalFile)
      → traverse (validate_plan_file H) fs ≡ ok fs
      → traverse (validate_transaction_file H) (map pending_file fs) ≡ ok (map pending_file fs)
  unfolding traverse
  traverse-pending [] h = refl
  traverse-pending (f ∷ fs) h =
      let (g, eg, h') = >>=-eq-ok (validate_plan_file H f) _ h in
      let (gs', egs, e) = >>=-eq-ok (traverse (validate_plan_file H) fs) _ h' in
      rw (pending_file_validates f (cc (e, eg))) (rw (traverse-pending fs (cc (e, egs))))

  prepared_transaction-IsValid :
      (p : Proposal) (run_id : String)
      → IsProposal p
      → require_hex_identifier "run_id" (text run_id) ≡ ok run_id
      → IsValid H (prepared_transaction H p run_id)
  unfolding prepared_transaction
  prepared_transaction-IsValid p run_id v r = record {
    component = eq_refl transaction_component;
    schema_version = refl;
    transaction_id = hex_of_identity H _ _ _;
    snapshot_id = hex_of_identity H _ _ _;
    proposal_id = v.proposal_id;
    candidate_id = v.candidate_id;
    run_id = r;
    repository_path = v.repository_path;
    repository_device = v.repository_device;
    repository_inode = v.repository_inode;
    branch = v.branch;
    head = v.head;
    some_file = rw is_nil-map v.some_file;
    files = traverse-pending p.files v.files;
    sorted = rw paths-pending v.sorted;
    distinct_paths = rw paths-pending v.distinct_paths;
    risk = same_risk_derived _;
    binding = rw map-plan_of_pending v.binding;
    invariants = Holds-validate_state_invariants prepared _ (refl, pending-Holds p.files);
    transaction_binding = eq_refl _;
    snapshot_binding = eq_refl _;
  }

  -- A proposal that is validated, with a run id of the right form, gives the PREPARED transaction:
  -- the validation of what was built never fails.
  pub build_total :
      (p : Proposal) (run_id : String) {q : Proposal}
      → validated_proposal H p ≡ ok q
      → require_hex_identifier "run_id" (text run_id) ≡ ok run_id
      → build_lab_promotion_transaction H p run_id ≡ ok (prepared_transaction H p run_id)
  unfolding build_lab_promotion_transaction
  build_total p run_id h r =
      let (same, v) = validated_proposal-IsProposal p h in
      rw (h ∙ ap ok same, r) (IsValid-validate H _ (prepared_transaction-IsValid p run_id v r))
