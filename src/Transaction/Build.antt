-- ===== src/Transaction/Build.antt =====
-- The first snapshot of a transaction (`build_lab_promotion_transaction` of
-- lab_promotion_transaction_state.py).
use hands_free_auto_lab_port.Prelude.{String, map, Result, ◌>>=◌}
use hands_free_auto_lab_port.Checks.{text, Sha256}
use hands_free_auto_lab_port.Proposal.{ProposalFile, Proposal, identity}
use hands_free_auto_lab_port.Transaction.Types.{
  prepared, pending, TransactionFile, Transaction, transaction_component,
  transaction_schema_version,
}
use hands_free_auto_lab_port.Transaction.Checks.{require_hex_identifier}
use hands_free_auto_lab_port.Transaction.Plan.{validated_proposal}
use hands_free_auto_lab_port.Transaction.Identity.{
  derive_risk, transaction_identity_object, snapshot_identity_object, transaction_id_domain,
  snapshot_id_domain,
}
use hands_free_auto_lab_port.Transaction.Validate.{validate_lab_promotion_transaction}

-- a planned file that nothing has been done for
unfoldable pub pending_file : ProposalFile → TransactionFile
pending_file f = record {
  operation = f.operation;
  path = f.path;
  before_exists = f.before_exists;
  before_bytes = f.before_bytes;
  before_sha256 = f.before_sha256;
  before_mode = f.before_mode;
  after_bytes = f.after_bytes;
  after_sha256 = f.after_sha256;
  after_mode = f.after_mode;
  after_content = f.after_content;
  source_kind = f.source_kind;
  source_id = f.source_id;
  progress = pending;
}

module _ (H : Sha256) where
  unfoldable pub prepared_transaction : Proposal → String → Transaction
  prepared_transaction p run_id =
      let files = map pending_file p.files in
      let risk = derive_risk files in
      let transaction_object =
        transaction_identity_object p.proposal_id p.candidate_id run_id p.repository_path
          p.repository_device p.repository_inode p.branch p.head risk files in
      let transaction_id = identity H transaction_id_domain transaction_object in
      let snapshot_object = snapshot_identity_object transaction_id prepared files in
      let snapshot_id = identity H snapshot_id_domain snapshot_object in
      record {
        component = transaction_component;
        schema_version = transaction_schema_version;
        transaction_id = transaction_id;
        snapshot_id = snapshot_id;
        proposal_id = p.proposal_id;
        candidate_id = p.candidate_id;
        run_id = run_id;
        repository_path = p.repository_path;
        repository_device = p.repository_device;
        repository_inode = p.repository_inode;
        branch = p.branch;
        head = p.head;
        risk_classification = risk;
        state = prepared;
        files = files;
      }

  unfoldable pub build_lab_promotion_transaction : Proposal → String → Result Transaction
  unfolding prepared_transaction
  build_lab_promotion_transaction proposal run_id = do
    p ← validated_proposal H proposal
    trusted_run_id ← require_hex_identifier "run_id" (text run_id)
    validate_lab_promotion_transaction H (prepared_transaction p trusted_run_id)
