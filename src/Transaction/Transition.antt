-- ===== src/Transaction/Transition.antt =====
-- One successor snapshot (`transition_lab_promotion_transaction` of
-- lab_promotion_transaction_state.py).
use hands_free_auto_lab_port.Prelude.{
  String, Bool, true, false, not, ◌&&◌, none, some, List, [], ◌∷◌, map, Result, ok, err, raised,
  key_error, raise_if, ◌>>=◌, ◌>>◌, lookup, keys, same_set, str_eq,
}
use hands_free_auto_lab_port.Checks.{Sha256}
use hands_free_auto_lab_port.Proposal.{identity}
use hands_free_auto_lab_port.Transaction.Types.{
  State, is_known_state, allowed_state_transition, Progress, pending, installed, verified, restored,
  is_known_progress, allowed_progress_transition, TransactionFile, Transaction,
}
use hands_free_auto_lab_port.Transaction.Checks.{error}
use hands_free_auto_lab_port.Transaction.Identity.{snapshot_identity_object, snapshot_id_domain}
use hands_free_auto_lab_port.Transaction.Validate.{
  validate_state_invariants, validate_lab_promotion_transaction,
}

-- the strings of two progress marks are equal
unfoldable pub same_progress : Progress → Progress → Bool
same_progress pending pending = true
same_progress installed installed = true
same_progress verified verified = true
same_progress restored restored = true
same_progress (Progress.unknown s) (Progress.unknown t) = str_eq s t
same_progress _ _ = false

-- the two checks of the loop on one file
unfoldable pub check_progress : String → Progress → Progress → Result (Unit {0})
unfolding same_progress allowed_progress_transition
check_progress path old new = do
  raise_if (not (is_known_progress new)) (error path "unknown file progress")
  raise_if (not (same_progress new old) && not (allowed_progress_transition old new))
      (error path "illegal file progress transition")

-- `progress_by_path[path]`
unfoldable pub get_progress : String → List (String × Progress) → Result Progress
unfolding lookup
get_progress path progress_by_path = elim (lookup path progress_by_path) [
  | none ↦ err (raised key_error path "")
  | some p ↦ ok p
]

-- the loop that collects `successor_files`
module _ (progress_by_path : List (String × Progress)) where
  unfoldable pub successor_files : List TransactionFile → Result (List TransactionFile)
  successor_files [] = ok []
  successor_files (f ∷ fs) = do
    p ← get_progress f.path progress_by_path
    check_progress f.path f.progress p
    rest ← successor_files fs
    ok (record f { progress = p } ∷ rest)

module _ (H : Sha256) where
  -- the successor that is built from a state and the files with their new progress
  unfoldable pub successor : Transaction → State → List TransactionFile → Transaction
  successor t state files =
      let snapshot_object = snapshot_identity_object t.transaction_id state files in
      record t {
        snapshot_id = identity H snapshot_id_domain snapshot_object;
        state = state;
        files = files;
      }

  unfoldable pub transition_lab_promotion_transaction :
      Transaction → State → List (String × Progress) → Result Transaction
  transition_lab_promotion_transaction transaction state progress_by_path = do
    current ← validate_lab_promotion_transaction H transaction
    raise_if (not (is_known_state state)) (error "" "unknown successor state")
    raise_if (not (allowed_state_transition current.state state))
        (error "" "illegal transaction transition")
    let expected_paths = map (λ (f : TransactionFile). f.path) current.files
    raise_if (not (same_set (keys progress_by_path) expected_paths))
        (error "" "progress paths must exactly match transaction paths")
    files ← successor_files progress_by_path current.files
    validate_state_invariants state files
    validate_lab_promotion_transaction H (successor current state files)
