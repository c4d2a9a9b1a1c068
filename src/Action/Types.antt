-- ===== src/Action/Types.antt =====
-- Actions (lab_action.py).
use hands_free_auto_lab_port.Prelude.{true, List, ◌*◌, Option, false, pos, ℕ, Bool, String, ℤ}

-- `ACTION_KINDS`; `unknown` is any other string.
pub data ActionKind : Type 0 where
  read_file write_file run : ActionKind
  unknown : String → ActionKind

unfoldable pub kind_name : ActionKind → String
kind_name read_file = "READ_FILE"
kind_name write_file = "WRITE_FILE"
kind_name run = "RUN"
kind_name (unknown s) = s

abbrev pub is_known_kind : ActionKind → Bool
is_known_kind (unknown _) = false
is_known_kind _ = true

-- `LabAction`
pub record Action : Type 0 where
  pub schema_version : ℤ
  pub kind : ActionKind
  pub path : Option String
  pub cwd : String
  pub argv : List String
  pub content : Option String
  pub action_id : String

abbrev pub action_schema_version : ℤ
action_schema_version = pos 1

abbrev pub max_content_bytes : ℕ
max_content_bytes = 256 * 1024

abbrev pub max_arguments : ℕ
max_arguments = 64

abbrev pub max_argument_bytes : ℕ
max_argument_bytes = 4096

abbrev pub action_id_domain : String
action_id_domain = "hands-free-auto-lab-action-v1"
