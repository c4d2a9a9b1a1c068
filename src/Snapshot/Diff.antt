-- ===== src/Snapshot/Diff.antt =====
-- The difference of two snapshots (`diff_lab_workspace_snapshots` of lab_workspace_snapshot.py).
use hands_free_auto_lab_port.Prelude.{
  String, Bool, true, false, not, ◌&&◌, Option, none, some, List, [], ◌∷◌, ◌++◌, map, eqb_ℤ, Result,
  ok, raise_if, ◌>>=◌, ◌>>◌, str_eq, if◌then◌else◌, contains, lookup, sorted_by,
}
use hands_free_auto_lab_port.Json.{Json, Items, nil, item, object_of}
use hands_free_auto_lab_port.Checks.{Sha256}
use hands_free_auto_lab_port.Proposal.{identity}
use hands_free_auto_lab_port.Snapshot.Types.{
  EntryKind, file, directory, Entry, Snapshot, added, modified, deleted, change_name, DiffEntry,
  Diff, diff_component, diff_schema_version, diff_id_domain,
}
use hands_free_auto_lab_port.Snapshot.Validate.{
  error, entry_object, entry_paths, validate_lab_workspace_snapshot,
}

unfoldable pub same_kind : EntryKind → EntryKind → Bool
same_kind file file = true
same_kind directory directory = true
same_kind (EntryKind.unknown s) (EntryKind.unknown t) = str_eq s t
same_kind _ _ = false

-- `==` of two values that may be `None`
unfoldable pub same_option {ℓ} : {A : Type ℓ} → (A → A → Bool) → Option A → Option A → Bool
same_option same none none = true
same_option same (some a) (some b) = same a b
same_option same none (some b) = false
same_option same (some a) none = false

-- `==` of two dataclass values, field by field
unfoldable pub same_entry : Entry → Entry → Bool
unfolding same_kind same_option
same_entry a b =
    str_eq a.path b.path
    && (same_kind a.kind b.kind
        && (eqb_ℤ a.mode b.mode
            && (same_option eqb_ℤ a.bytes b.bytes && same_option str_eq a.sha256 b.sha256)))

-- `{item.path: item for item in entries}`; the paths of a valid snapshot are distinct
abbrev pub by_path : List Entry → List (String × Entry)
by_path = map (λ (e : Entry). (e.path, e))

-- the items of `set(keys)`, each once
unfoldable pub unique : List String → List String
unfolding contains
unique [] = []
unique (k ∷ ks) = let rest = unique ks in if contains k rest then rest else k ∷ rest

-- `sorted(set(before_by_path) | set(after_by_path))`
unfoldable pub all_paths : List Entry → List Entry → List String
unfolding unique sorted_by
all_paths before after = sorted_by (λ path. path) (unique (entry_paths before ++ entry_paths after))

-- the branches on one path; `none` is `continue`
unfoldable pub compare_entries : String → Option Entry → Option Entry → Option DiffEntry
unfolding same_entry
compare_entries path none after =
    some (record { path = path; change = added; before = none; after = after })
compare_entries path (some b) none =
    some (record { path = path; change = deleted; before = some b; after = none })
compare_entries path (some b) (some a) =
    if not (same_entry b a)
    then some (record { path = path; change = modified; before = some b; after = some a })
    else none

-- the loop over the paths
module _ (before after : List Entry) where
  unfoldable pub changes : List String → List DiffEntry
  unfolding lookup compare_entries
  changes [] = []
  changes (path ∷ paths) =
      let rest = changes paths in
      elim (compare_entries path (lookup path (by_path before)) (lookup path (by_path after))) [
        | none ↦ rest
        | some e ↦ e ∷ rest
      ]

abbrev optional_entry : Option Entry → Json
optional_entry none = Json.null
optional_entry (some e) = entry_object e

-- `_diff_entry_identity_object`, for each entry
unfoldable pub diff_entry_objects : List DiffEntry → Items
unfolding entry_object change_name
diff_entry_objects [] = nil
diff_entry_objects (d ∷ ds) =
    item
      (object_of (
        ("path", Json.text d.path)
        ∷ ("change", Json.text (change_name d.change))
        ∷ ("before", optional_entry d.before)
        ∷ ("after", optional_entry d.after)
        ∷ []))
      (diff_entry_objects ds)

-- `_diff_identity_object`
unfoldable pub diff_object : Snapshot → Snapshot → List DiffEntry → Json
unfolding diff_entry_objects
diff_object before after entries = object_of (
    ("component", Json.text diff_component)
    ∷ ("schema_version", Json.integer diff_schema_version)
    ∷ ("workspace_session_id", Json.text before.workspace_session_id)
    ∷ ("workspace_device", Json.integer before.workspace_device)
    ∷ ("workspace_inode", Json.integer before.workspace_inode)
    ∷ ("before_snapshot_id", Json.text before.snapshot_id)
    ∷ ("after_snapshot_id", Json.text after.snapshot_id)
    ∷ ("entries", Json.array (diff_entry_objects entries))
    ∷ [])

-- the two identities of the workspace are equal
abbrev pub same_workspace : Snapshot → Snapshot → Bool
same_workspace before after =
    str_eq before.workspace_session_id after.workspace_session_id
    && (eqb_ℤ before.workspace_device after.workspace_device
        && eqb_ℤ before.workspace_inode after.workspace_inode)

module _ (H : Sha256) where
  -- the difference that is made of the changes
  unfoldable pub diff_of : Snapshot → Snapshot → List DiffEntry → Diff
  diff_of before after entries = record {
    component = diff_component;
    schema_version = diff_schema_version;
    diff_id = identity H diff_id_domain (diff_object before after entries);
    workspace_session_id = before.workspace_session_id;
    workspace_device = before.workspace_device;
    workspace_inode = before.workspace_inode;
    before_snapshot_id = before.snapshot_id;
    after_snapshot_id = after.snapshot_id;
    entries = entries;
  }

  unfoldable pub diff_lab_workspace_snapshots : Snapshot → Snapshot → Result Diff
  diff_lab_workspace_snapshots earlier later = do
    before ← validate_lab_workspace_snapshot H earlier
    after ← validate_lab_workspace_snapshot H later
    raise_if (not (same_workspace before after))
        (error "" "workspace snapshots refer to different physical workspaces")
    ok (
        diff_of before after
          (changes before.entries after.entries (all_paths before.entries after.entries)))
