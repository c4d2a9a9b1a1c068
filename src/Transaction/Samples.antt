-- ===== src/Transaction/Samples.antt =====
-- Sample snapshots of a transaction, and the name whose unfolding lets a run compute.
use hands_free_auto_lab_port.Prelude.{String, List, [], ◌∷◌}
use hands_free_auto_lab_port.Transaction.Types.{
  State, allowed_progress_transition, allowed_state_transition, proposal_file_from_transaction_file,
  risk_name, progress_name, state_name, Progress, TransactionFile, Transaction,
}
use hands_free_auto_lab_port.Transaction.Transition.{
  successor_files, get_progress, check_progress, same_progress, successor,
  transition_lab_promotion_transaction,
}
use hands_free_auto_lab_port.Transaction.Build.{
  pending_file, prepared_transaction, build_lab_promotion_transaction,
}
use hands_free_auto_lab_port.Transaction.Validate.{
  validate_transaction_file, same_risk, validate_state_invariants, permits,
  validate_lab_promotion_transaction,
}
use hands_free_auto_lab_port.Transaction.Identity.{
  snapshot_identity_object, progress_objects, transaction_identity_object, transaction_file_objects,
  transaction_file_object, derive_risk, has_add,
}
use hands_free_auto_lab_port.Transaction.Plan.{
  validate_plan_file, validate_before, validated_proposal,
}
use hands_free_auto_lab_port.Transaction.Checks.{
  require_relative_path, is_canonical_relative, require_repository_path, is_normalized,
  require_git_head, require_sha256, require_plain_mode, require_integer, require_text,
  require_hex_identifier,
}
use hands_free_auto_lab_port.Samples.{opened, toy, sample, even_id}
use hands_free_auto_lab_port.Transaction.Unchanged.{progress_of}

abbrev pub marks : Progress → Progress → List (String × Progress)
marks p q = ("docs/new.txt", p) ∷ (("src/main.py", q) ∷ [])

abbrev with_marks : Progress → Progress → List TransactionFile
with_marks p q = go (prepared_transaction toy sample even_id).files
  where
    go : List TransactionFile → List TransactionFile
    go (f ∷ (g ∷ [])) = record f { progress = p } ∷ (record g { progress = q } ∷ [])
    go fs = fs

-- Unfolding this name opens what a run of a transaction computes with.
unfoldable pub opened_transaction : Unit {0}
unfolding opened require_text require_integer require_hex_identifier require_plain_mode
    require_sha256 require_git_head is_normalized require_repository_path is_canonical_relative
    require_relative_path validate_before validate_plan_file validated_proposal has_add derive_risk
    transaction_file_object transaction_file_objects transaction_identity_object progress_objects
    snapshot_identity_object state_name progress_name risk_name proposal_file_from_transaction_file
    permits validate_state_invariants same_risk validate_transaction_file
    validate_lab_promotion_transaction pending_file prepared_transaction
    build_lab_promotion_transaction same_progress check_progress get_progress successor_files
    successor transition_lab_promotion_transaction allowed_state_transition
    allowed_progress_transition progress_of
opened_transaction = tt

-- the snapshots of two runs
abbrev pub t0 : Transaction
t0 = prepared_transaction toy sample even_id

abbrev pub at : State → Progress → Progress → Transaction
at s p q = successor toy t0 s (with_marks p q)
