-- ===== src/Approval/Types.antt =====
-- What lab_promotion_approval_state.py uses of Python, and its constants.
use hands_free_auto_lab_port.Prelude.{Bool, [], pos, Option, ◌*◌, ◌∷◌, String, ℕ, List, ℤ}
use hands_free_auto_lab_port.Json.{Json}

-- `bytes.decode("utf-8")`, `json.loads` and `datetime`. `none` stands for the UnicodeDecodeError, the
-- JSONDecodeError and the ValueError that the three raise. An aware moment is a point in time,
-- `instant`, in microseconds: that is what `<`, `<=` and `-` of aware moments go by.
pub record Readers : Type 1 where
  pub decode : List ℕ → Option String
  pub loads : String → Option Json
  pub Moment : Type 0
  pub fromisoformat : String → Option Moment
  pub is_aware : Moment → Bool
  pub isoformat : Moment → String
  pub instant : Moment → ℤ

abbrev pub schema_version : ℤ
schema_version = pos 1

abbrev pub channel : String
channel = "promotion"

abbrev pub challenge_component : String
challenge_component = "hands-free-auto-lab-promotion-challenge-v1"

abbrev pub decision_component : String
decision_component = "hands-free-auto-lab-promotion-decision-v1"

abbrev pub approval_component : String
approval_component = "hands-free-auto-lab-promotion-approval-v1"

abbrev pub terminal_component : String
terminal_component = "hands-free-auto-lab-promotion-terminal-v1"

-- in microseconds
abbrev pub challenge_max_lifetime : ℕ
challenge_max_lifetime = 3 * 3600 * 1000000

abbrev pub approval_max_lifetime : ℕ
approval_max_lifetime = 30 * 1000000

abbrev pub max_record_bytes : ℕ
max_record_bytes = 4096

abbrev pub challenge_fields : List String
challenge_fields =
    "schema_version" ∷ "challenge_component" ∷ "channel" ∷ "challenge_id" ∷ "proposal_id"
    ∷ "created_at" ∷ "expires_at" ∷ []

abbrev pub decision_fields : List String
decision_fields =
    "schema_version" ∷ "decision_component" ∷ "channel" ∷ "challenge_id" ∷ "proposal_id"
    ∷ "decision" ∷ "decided_at" ∷ "approval_id" ∷ []

abbrev pub approval_fields : List String
approval_fields =
    "schema_version" ∷ "approval_component" ∷ "channel" ∷ "challenge_id" ∷ "proposal_id"
    ∷ "approval_id" ∷ "approved_at" ∷ "created_at" ∷ "expires_at" ∷ []

abbrev pub terminal_fields : List String
terminal_fields =
    "schema_version" ∷ "terminal_component" ∷ "channel" ∷ "approval_id" ∷ "proposal_id"
    ∷ "terminal_state" ∷ "terminal_at" ∷ "run_id" ∷ []
