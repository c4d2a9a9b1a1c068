-- ===== src/Snapshot/Types.antt =====
-- Entries, snapshots and differences (lab_workspace_snapshot.py).
use hands_free_auto_lab_port.Prelude.{String, Bool, true, false, Option, List, ℤ, pos}

-- `ENTRY_KINDS`; `unknown` is any other string.
pub data EntryKind : Type 0 where
  file directory : EntryKind
  unknown : String → EntryKind

unfoldable pub kind_name : EntryKind → String
kind_name file = "FILE"
kind_name directory = "DIRECTORY"
kind_name (unknown s) = s

abbrev pub is_known_kind : EntryKind → Bool
is_known_kind (unknown _) = false
is_known_kind _ = true

-- `LabWorkspaceSnapshotEntry`
pub record Entry : Type 0 where
  pub path : String
  pub kind : EntryKind
  pub mode : ℤ
  pub bytes : Option ℤ
  pub sha256 : Option String

-- `LabWorkspaceSnapshot`
pub record Snapshot : Type 0 where
  pub component : String
  pub schema_version : ℤ
  pub snapshot_id : String
  pub workspace_session_id : String
  pub workspace_device : ℤ
  pub workspace_inode : ℤ
  pub entries : List Entry

-- `CHANGE_KINDS`; `unknown` is any other string.
pub data Change : Type 0 where
  added modified deleted : Change
  unknown : String → Change

unfoldable pub change_name : Change → String
change_name added = "ADDED"
change_name modified = "MODIFIED"
change_name deleted = "DELETED"
change_name (Change.unknown s) = s

-- `LabWorkspaceDiffEntry`
pub record DiffEntry : Type 0 where
  pub path : String
  pub change : Change
  pub before : Option Entry
  pub after : Option Entry

-- `LabWorkspaceDiff`
pub record Diff : Type 0 where
  pub component : String
  pub schema_version : ℤ
  pub diff_id : String
  pub workspace_session_id : String
  pub workspace_device : ℤ
  pub workspace_inode : ℤ
  pub before_snapshot_id : String
  pub after_snapshot_id : String
  pub entries : List DiffEntry

abbrev pub snapshot_component : String
snapshot_component = "hands-free-auto-lab-workspace-snapshot-v1"

abbrev pub snapshot_schema_version : ℤ
snapshot_schema_version = pos 1

abbrev pub diff_component : String
diff_component = "hands-free-auto-lab-workspace-diff-v1"

abbrev pub diff_schema_version : ℤ
diff_schema_version = pos 1

abbrev pub snapshot_id_domain : String
snapshot_id_domain = "hands-free-auto-lab-workspace-snapshot-id-v1"

abbrev pub diff_id_domain : String
diff_id_domain = "hands-free-auto-lab-workspace-diff-id-v1"
