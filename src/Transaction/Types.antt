-- ===== src/Transaction/Types.antt =====
-- States, progress marks and snapshots (lab_promotion_transaction_state.py).
use hands_free_auto_lab_port.Prelude.{String, Bool, true, false, Option, List, ℤ, pos}
use hands_free_auto_lab_port.Proposal.{Operation, ProposalFile}

-- `TRANSACTION_STATES`; `unknown` is any other string.
pub data State : Type 0 where
  prepared applying verifying completed rolling_back rolled_back recovery_required : State
  unknown : String → State

-- `FILE_PROGRESS_STATES`; `unknown` is any other string.
pub data Progress : Type 0 where
  pending installed verified restored : Progress
  unknown : String → Progress

pub data Risk : Type 0 where
  write destructive_high : Risk
  other : String → Risk

unfoldable pub state_name : State → String
state_name prepared = "PREPARED"
state_name applying = "APPLYING"
state_name verifying = "VERIFYING"
state_name completed = "COMPLETED"
state_name rolling_back = "ROLLING_BACK"
state_name rolled_back = "ROLLED_BACK"
state_name recovery_required = "RECOVERY_REQUIRED"
state_name (State.unknown s) = s

unfoldable pub progress_name : Progress → String
progress_name pending = "PENDING"
progress_name installed = "INSTALLED"
progress_name verified = "VERIFIED"
progress_name restored = "RESTORED"
progress_name (Progress.unknown s) = s

unfoldable pub risk_name : Risk → String
risk_name write = "WRITE"
risk_name destructive_high = "DESTRUCTIVE / HIGH-RISK"
risk_name (other s) = s

-- `state in TRANSACTION_STATES`
abbrev pub is_known_state : State → Bool
is_known_state (State.unknown _) = false
is_known_state _ = true

-- `progress in FILE_PROGRESS_STATES`
abbrev pub is_known_progress : Progress → Bool
is_known_progress (Progress.unknown _) = false
is_known_progress _ = true

-- `_ALLOWED_STATE_TRANSITIONS`: is the second state a successor of the first?
unfoldable pub allowed_state_transition : State → State → Bool
allowed_state_transition prepared applying = true
allowed_state_transition prepared recovery_required = true
allowed_state_transition applying applying = true
allowed_state_transition applying verifying = true
allowed_state_transition applying rolling_back = true
allowed_state_transition applying recovery_required = true
allowed_state_transition verifying verifying = true
allowed_state_transition verifying completed = true
allowed_state_transition verifying rolling_back = true
allowed_state_transition verifying recovery_required = true
allowed_state_transition rolling_back rolling_back = true
allowed_state_transition rolling_back rolled_back = true
allowed_state_transition rolling_back recovery_required = true
allowed_state_transition _ _ = false

-- `_ALLOWED_PROGRESS_TRANSITIONS`
unfoldable pub allowed_progress_transition : Progress → Progress → Bool
allowed_progress_transition pending installed = true
allowed_progress_transition installed verified = true
allowed_progress_transition installed restored = true
allowed_progress_transition verified restored = true
allowed_progress_transition _ _ = false

-- `LabPromotionTransactionFile`: the fields of the planned file, and its progress.
pub record TransactionFile : Type 0 where
  pub operation : Operation
  pub path : String
  pub before_exists : Bool
  pub before_bytes : Option ℤ
  pub before_sha256 : Option String
  pub before_mode : Option ℤ
  pub after_bytes : ℤ
  pub after_sha256 : String
  pub after_mode : ℤ
  pub after_content : String
  pub source_kind : String
  pub source_id : String
  pub progress : Progress

-- `LabPromotionTransaction`
pub record Transaction : Type 0 where
  pub component : String
  pub schema_version : ℤ
  pub transaction_id : String
  pub snapshot_id : String
  pub proposal_id : String
  pub candidate_id : String
  pub run_id : String
  pub repository_path : String
  pub repository_device : ℤ
  pub repository_inode : ℤ
  pub branch : String
  pub head : String
  pub risk_classification : Risk
  pub state : State
  pub files : List TransactionFile

abbrev pub transaction_component : String
transaction_component = "hands-free-auto-lab-promotion-transaction-v3"

abbrev pub transaction_schema_version : ℤ
transaction_schema_version = pos 3

-- `_proposal_file_from_transaction_file`
unfoldable pub proposal_file_from_transaction_file : TransactionFile → ProposalFile
proposal_file_from_transaction_file f = record {
  operation = f.operation;
  path = f.path;
  before_exists = f.before_exists;
  before_bytes = f.before_bytes;
  before_sha256 = f.before_sha256;
  before_mode = f.before_mode;
  after_bytes = f.after_bytes;
  after_sha256 = f.after_sha256;
  after_mode = f.after_mode;
  after_content = f.after_content;
  source_kind = f.source_kind;
  source_id = f.source_id;
}
