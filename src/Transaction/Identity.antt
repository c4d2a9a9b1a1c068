-- ===== src/Transaction/Identity.antt =====
-- What the identities of a transaction and of its snapshots are computed from
-- (`_transaction_identity_object`, `_snapshot_identity_object` and `_derive_risk` of
-- lab_promotion_transaction_state.py).
use hands_free_auto_lab_port.Prelude.{
  String, Bool, true, false, List, [], ◌∷◌, ℤ, any, if◌then◌else◌,
}
use hands_free_auto_lab_port.Json.{Json, Items, nil, item, object_of}
use hands_free_auto_lab_port.Proposal.{
  Operation, add, modify, unsupported, operation_name, json_text, json_integer,
}
use hands_free_auto_lab_port.Transaction.Types.{
  State, Risk, write, destructive_high, TransactionFile, state_name, progress_name, risk_name,
  transaction_component, transaction_schema_version,
}

abbrev pub is_add : Operation → Bool
is_add add = true
is_add modify = false
is_add (unsupported _) = false

-- `any(item.operation == PROMOTION_OPERATION_ADD for item in files)`
unfoldable pub has_add : List TransactionFile → Bool
unfolding any
has_add = any (λ (f : TransactionFile). is_add f.operation)

unfoldable pub derive_risk : List TransactionFile → Risk
unfolding has_add
derive_risk files = if has_add files then destructive_high else write

unfoldable pub transaction_file_object : TransactionFile → Json
unfolding operation_name
transaction_file_object f = object_of (
    ("operation", Json.text (operation_name f.operation))
    ∷ ("path", Json.text f.path)
    ∷ ("before_exists", Json.boolean f.before_exists)
    ∷ ("before_bytes", json_integer f.before_bytes)
    ∷ ("before_sha256", json_text f.before_sha256)
    ∷ ("before_mode", json_integer f.before_mode)
    ∷ ("after_bytes", Json.integer f.after_bytes)
    ∷ ("after_sha256", Json.text f.after_sha256)
    ∷ ("after_mode", Json.integer f.after_mode)
    ∷ ("after_content", Json.text f.after_content)
    ∷ ("source_kind", Json.text f.source_kind)
    ∷ ("source_id", Json.text f.source_id)
    ∷ [])

unfoldable pub transaction_file_objects : List TransactionFile → Items
unfolding transaction_file_object
transaction_file_objects [] = nil
transaction_file_objects (f ∷ fs) = item (transaction_file_object f) (transaction_file_objects fs)

module _ (proposal_id candidate_id run_id repository_path : String)
    (repository_device repository_inode : ℤ) (branch head : String) (risk : Risk)
    (files : List TransactionFile) where
  unfoldable pub transaction_identity_object : Json
  unfolding transaction_file_objects risk_name
  transaction_identity_object = object_of (
      ("component", Json.text transaction_component)
      ∷ ("schema_version", Json.integer transaction_schema_version)
      ∷ ("proposal_id", Json.text proposal_id)
      ∷ ("candidate_id", Json.text candidate_id)
      ∷ ("run_id", Json.text run_id)
      ∷ ("repository_path", Json.text repository_path)
      ∷ ("repository_device", Json.integer repository_device)
      ∷ ("repository_inode", Json.integer repository_inode)
      ∷ ("branch", Json.text branch)
      ∷ ("head", Json.text head)
      ∷ ("risk_classification", Json.text (risk_name risk))
      ∷ ("files", Json.array (transaction_file_objects files))
      ∷ [])

unfoldable pub progress_objects : List TransactionFile → Items
unfolding progress_name
progress_objects [] = nil
progress_objects (f ∷ fs) =
    item
      (object_of
        (("path", Json.text f.path) ∷ ("progress", Json.text (progress_name f.progress)) ∷ []))
      (progress_objects fs)

unfoldable pub snapshot_identity_object : String → State → List TransactionFile → Json
unfolding state_name progress_objects
snapshot_identity_object transaction_id state files = object_of (
    ("transaction_id", Json.text transaction_id)
    ∷ ("state", Json.text (state_name state))
    ∷ ("file_progress", Json.array (progress_objects files))
    ∷ [])

abbrev pub transaction_id_domain : String
transaction_id_domain = "hands-free-auto-lab-promotion-transaction-id-v3"

abbrev pub snapshot_id_domain : String
snapshot_id_domain = "hands-free-auto-lab-promotion-transaction-snapshot-id-v3"
