-- ===== src/Policy/Evidence.antt =====
-- A policy against the snapshots before and after a worker ran (lab_worker_change_policy.py).
use hands_free_auto_lab_port.Prelude.{
  same_set, for_each, contains, ◌>>=◌, ◌>>◌, [], ◌∷◌, eqb_ℤ, ok, str_eq, String, Bool, true, false,
  not, ◌&&◌, Option, none, some, List, map, ℤ, ltb_ℤ, Result, err, raise_if, if◌then◌else◌, lookup,
}
use hands_free_auto_lab_port.Policy.Validate.{
  target_paths, validate_lab_worker_change_policy, is_add,
}
use hands_free_auto_lab_port.Snapshot.Diff.{
  diff_lab_workspace_snapshots, same_entry, same_option, by_path,
}
use hands_free_auto_lab_port.Snapshot.Validate.{validate_lab_workspace_snapshot}
use hands_free_auto_lab_port.Checks.{
  text, Sha256, integer, optional_text, optional_integer, text_of, integer_of, same_value,
}
use hands_free_auto_lab_port.Snapshot.Types.{
  Snapshot, Diff, DiffEntry, change_name, EntryKind, file, Entry, Change, deleted,
}
use hands_free_auto_lab_port.Policy.Types.{ChangePolicy, Target}
use hands_free_auto_lab_port.Policy.Checks.{error}

abbrev pub is_file_kind : EntryKind → Bool
is_file_kind file = true
is_file_kind _ = false

-- `e is not None and e.kind == ENTRY_FILE`
abbrev pub is_file : Option Entry → Bool
is_file none = false
is_file (some e) = is_file_kind e.kind

-- the comparison of two triples: bytes, digest and mode
abbrev pub has_before : Target → Entry → Bool
has_before t e =
    same_value (optional_integer e.bytes) t.before_bytes
    && (same_value (optional_text e.sha256) t.before_sha256
        && same_value (integer e.mode) t.before_mode)

-- the entry before, of an operation that is not ADDED
unfoldable pub check_modified_before : Target → Option Entry → Result (Unit {0})
unfolding same_value
check_modified_before t none =
    err (error (text_of t.path) "MODIFIED target lacks regular-file before state")
check_modified_before t (some e) = do
  raise_if (not (is_file_kind e.kind))
      (error (text_of t.path) "MODIFIED target lacks regular-file before state")
  raise_if (not (has_before t e))
      (error (text_of t.path) "MODIFIED before-state provenance mismatch")

abbrev pub is_some {ℓ} : {A : Type ℓ} → Option A → Bool
is_some none = false
is_some (some _) = true

-- the body of the loop of `validate_lab_worker_change_policy_before`
unfoldable pub check_target_before : List Entry → Target → Result (Unit {0})
unfolding lookup check_modified_before
check_target_before entries t =
    let existing = lookup (text_of t.path) (by_path entries) in
    if is_add t
    then raise_if (is_some existing)
        (error (text_of t.path) "ADDED target already exists before worker")
    else check_modified_before t existing

-- `{target.path: target for target in targets}`; the paths of a valid policy are distinct
abbrev pub targets_by_path : List Target → List (String × Target)
targets_by_path = map (λ (t : Target). (text_of t.path, t))

-- `target.max_final_bytes` is passed, or there is no number of bytes
abbrev pub exceeds : Option ℤ → ℤ → Bool
exceeds none limit = true
exceeds (some n) limit = ltb_ℤ limit n

abbrev pub is_deleted : Change → Bool
is_deleted deleted = true
is_deleted _ = false

-- the checks on the entry after
unfoldable pub check_after : Target → String → Option Entry → Result (Unit {0})
unfolding same_value
check_after t path none = err (error path "final target is not a regular file")
check_after t path (some e) = do
  raise_if (not (is_file_kind e.kind)) (error path "final target is not a regular file")
  raise_if (not (same_value (integer e.mode) t.final_mode))
      (error path "final mode differs from policy")
  raise_if (exceeds e.bytes (integer_of t.max_final_bytes))
      (error path "final byte count exceeds policy")

-- the checks on the entry before, of an operation that is not ADDED
unfoldable pub check_modified : Target → String → Option Entry → Result (Unit {0})
unfolding same_value
check_modified t path none = err (error path "MODIFIED physical change lacks regular before state")
check_modified t path (some e) = do
  raise_if (not (is_file_kind e.kind))
      (error path "MODIFIED physical change lacks regular before state")
  raise_if (not (has_before t e)) (error path "MODIFIED physical before state differs from policy")

-- the checks on the entry before
unfoldable pub check_before : Target → String → Option Entry → Result (Unit {0})
unfolding check_modified
check_before t path before =
    if is_add t
    then raise_if (is_some before)
        (error path "ADDED physical change unexpectedly has before state")
    else check_modified t path before

-- the checks on one change, given its target
unfoldable pub check_change : Target → DiffEntry → Result (Unit {0})
unfolding check_after check_before change_name
check_change t c = do
  raise_if (is_deleted c.change) (error c.path "deletion is forbidden by change policy")
  raise_if (not (same_value (text (change_name c.change)) t.operation))
      (error c.path "physical operation differs from policy")
  check_after t c.path c.after
  check_before t c.path c.before

-- `targets_by_path.get(path)`
unfoldable pub get_target : List Target → String → Result Target
unfolding lookup
get_target targets path = elim (lookup path (targets_by_path targets)) [
  | none ↦ err (error path "physical change is outside policy")
  | some t ↦ ok t
]

-- the loop over the changes, with `observed_paths`
module _ (targets : List Target) where
  unfoldable pub check_changes : List String → List DiffEntry → Result (List String)
  unfolding get_target check_change
  check_changes observed [] = ok observed
  check_changes observed (c ∷ cs) = do
    t ← get_target targets c.path
    raise_if (contains c.path observed) (error "" "physical diff contains duplicate policy path")
    check_change t c
    check_changes (c.path ∷ observed) cs

unfoldable pub same_change : Change → Change → Bool
unfolding change_name
same_change a b = str_eq (change_name a) (change_name b)

unfoldable pub same_changes : List DiffEntry → List DiffEntry → Bool
unfolding same_change
same_changes [] [] = true
same_changes (c ∷ cs) (d ∷ ds) =
    (str_eq c.path d.path
      && (same_change c.change d.change
          && (same_option same_entry c.before d.before && same_option same_entry c.after d.after)))
    && same_changes cs ds
same_changes [] (d ∷ ds) = false
same_changes (c ∷ cs) [] = false

-- `==` of two differences, field by field
unfoldable pub same_diff : Diff → Diff → Bool
unfolding same_changes
same_diff a b =
    str_eq a.component b.component
    && (eqb_ℤ a.schema_version b.schema_version
        && (str_eq a.diff_id b.diff_id
            && (str_eq a.workspace_session_id b.workspace_session_id
                && (eqb_ℤ a.workspace_device b.workspace_device
                    && (eqb_ℤ a.workspace_inode b.workspace_inode
                        && (str_eq a.before_snapshot_id b.before_snapshot_id
                            && (str_eq a.after_snapshot_id b.after_snapshot_id
                                && same_changes a.entries b.entries)))))))

module _ (H : Sha256) where
  unfoldable pub validate_lab_worker_change_policy_before :
      ChangePolicy → Snapshot → Result ChangePolicy
  validate_lab_worker_change_policy_before policy before_snapshot = do
    p ← validate_lab_worker_change_policy H policy
    before ← validate_lab_workspace_snapshot H before_snapshot
    for_each (check_target_before before.entries) p.targets
    ok p

  -- The flag is the keyword argument `require_complete`.
  unfoldable pub validate_lab_worker_change_policy_diff :
      ChangePolicy → Snapshot → Snapshot → Diff → Bool → Result ChangePolicy
  validate_lab_worker_change_policy_diff policy before_snapshot after_snapshot physical_diff
        complete =
      do
        p ← validate_lab_worker_change_policy_before policy before_snapshot
        before ← validate_lab_workspace_snapshot H before_snapshot
        after ← validate_lab_workspace_snapshot H after_snapshot
        derived ← diff_lab_workspace_snapshots H before after
        raise_if (not (same_diff physical_diff derived))
            (error "" "recorded physical diff differs from independently derived diff")
        observed ← check_changes p.targets [] derived.entries
        raise_if (complete && not (same_set observed (target_paths p.targets)))
            (error "" "successful physical diff does not exactly match policy targets")
        ok p
