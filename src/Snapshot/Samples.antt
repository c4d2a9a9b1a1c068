-- ===== src/Snapshot/Samples.antt =====
-- Two snapshots of one workspace, for the tests: a file has changed, and one is new.
use hands_free_auto_lab_port.Prelude.{none, [], pos, ◌∷◌, some, List}
use hands_free_auto_lab_port.Paths.{
  is_git_path, is_canonical_absolute, is_canonical, starts_with, same_codes, posix_str, join,
  posix_names, keep_names, posix_root,
}
use hands_free_auto_lab_port.Snapshot.Types.{
  change_name, kind_name, snapshot_schema_version, snapshot_component, Diff, DiffEntry, Snapshot,
  Entry, file, directory, added, modified,
}
use hands_free_auto_lab_port.Snapshot.Diff.{
  diff_lab_workspace_snapshots, diff_object, diff_entry_objects, changes, compare_entries,
  all_paths, unique, same_entry, same_option, same_kind, diff_of,
}
use hands_free_auto_lab_port.Snapshot.Validate.{
  validate_lab_workspace_snapshot, validate_entry, validate_evidence, snapshot_object,
  snapshot_identity, entry_objects, entry_object, require_relative_path, require_identifier,
}
use hands_free_auto_lab_port.Samples.{even_id, toy, odd_id, opened}

abbrev pub old_entry : Entry
old_entry = record {
  path = "a.txt";
  kind = file;
  mode = pos 0o644;
  bytes = some (pos 3);
  sha256 = some even_id;
}

abbrev pub new_entry : Entry
new_entry = record {
  path = "a.txt";
  kind = file;
  mode = pos 0o644;
  bytes = some (pos 5);
  sha256 = some odd_id;
}

abbrev pub second_entry : Entry
second_entry = record {
  path = "lib/b.txt";
  kind = file;
  mode = pos 0o600;
  bytes = some (pos 7);
  sha256 = some odd_id;
}

abbrev folder_entry : Entry
folder_entry = record {
  path = "lib";
  kind = directory;
  mode = pos 0o755;
  bytes = none;
  sha256 = none;
}

abbrev snapshot_of : List Entry → Snapshot
snapshot_of entries = record {
  component = snapshot_component;
  schema_version = snapshot_schema_version;
  snapshot_id = snapshot_identity toy even_id (pos 8) (pos 4096) entries;
  workspace_session_id = even_id;
  workspace_device = pos 8;
  workspace_inode = pos 4096;
  entries = entries;
}

abbrev pub earlier : Snapshot
earlier = snapshot_of (old_entry ∷ folder_entry ∷ [])

abbrev pub later : Snapshot
later = snapshot_of (new_entry ∷ folder_entry ∷ second_entry ∷ [])

abbrev pub first_change : DiffEntry
first_change = record {
  path = "a.txt";
  change = modified;
  before = some old_entry;
  after = some new_entry;
}

abbrev pub difference : Diff
difference = diff_of toy earlier later (
    first_change
    ∷ record { path = "lib/b.txt"; change = added; before = none; after = some second_entry }
    ∷ [])

-- Unfolding this name opens what a run on snapshots computes with.
unfoldable pub opened_snapshots : Unit {0}
unfolding opened require_identifier require_relative_path entry_object entry_objects snapshot_object
    validate_evidence validate_entry snapshot_identity validate_lab_workspace_snapshot same_kind
    same_option same_entry unique all_paths compare_entries changes diff_entry_objects diff_object
    diff_of diff_lab_workspace_snapshots kind_name change_name posix_root keep_names posix_names
    join posix_str same_codes starts_with is_canonical is_canonical_absolute is_git_path
opened_snapshots = tt
