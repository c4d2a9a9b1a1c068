-- ===== src/Snapshot/Validate.antt =====
-- The validation of a snapshot that was recorded (lab_workspace_snapshot.py).
use hands_free_auto_lab_port.Prelude.{
  String, not, ◌||◌, Option, none, some, List, [], ◌∷◌, map, ℤ, pos, ltb_ℤ, eqb_ℤ, Error, raised,
  snapshot_error, Result, ok, err, raise_if, ◌>>=◌, ◌>>◌, traverse, str_eq, is_empty, codes,
  contains_code, is_sorted, distinct,
}
use hands_free_auto_lab_port.Json.{Json, Items, nil, item, object_of}
use hands_free_auto_lab_port.Checks.{Sha256, is_hex}
use hands_free_auto_lab_port.Paths.{is_canonical}
use hands_free_auto_lab_port.Proposal.{identity, json_text, json_integer}
use hands_free_auto_lab_port.Snapshot.Types.{
  EntryKind, directory, kind_name, is_known_kind, Entry, Snapshot, snapshot_component,
  snapshot_schema_version, snapshot_id_domain,
}

abbrev pub error : String → String → Error
error = raised snapshot_error

-- `_require_identifier`
unfoldable pub require_identifier : String → Option String → Result String
require_identifier name none = err (error name "must be a string")
require_identifier name (some value) = do
  raise_if (not (is_hex 64 value)) (error name "must be a lowercase 64-character hex identifier")
  ok value

-- `_require_relative_path`
unfoldable pub require_relative_path : String → Result String
require_relative_path value = do
  raise_if (is_empty value || contains_code 0 (codes value))
      (error "" "snapshot path must be a non-empty string without NUL")
  raise_if (not (is_canonical (codes value)))
      (error "" "snapshot path must be canonical and relative")
  ok value

-- `_entry_identity_object`
unfoldable pub entry_object : Entry → Json
unfolding kind_name
entry_object e = object_of (
    ("path", Json.text e.path)
    ∷ ("kind", Json.text (kind_name e.kind))
    ∷ ("mode", Json.integer e.mode)
    ∷ ("bytes", json_integer e.bytes)
    ∷ ("sha256", json_text e.sha256)
    ∷ [])

unfoldable pub entry_objects : List Entry → Items
unfolding entry_object
entry_objects [] = nil
entry_objects (e ∷ es) = item (entry_object e) (entry_objects es)

-- `_snapshot_identity_object`
unfoldable pub snapshot_object : String → ℤ → ℤ → List Entry → Json
unfolding entry_objects
snapshot_object session_id device inode entries = object_of (
    ("component", Json.text snapshot_component)
    ∷ ("schema_version", Json.integer snapshot_schema_version)
    ∷ ("workspace_session_id", Json.text session_id)
    ∷ ("workspace_device", Json.integer device)
    ∷ ("workspace_inode", Json.integer inode)
    ∷ ("entries", Json.array (entry_objects entries))
    ∷ [])

-- the checks on the bytes and the digest, which depend on the kind
unfoldable pub validate_evidence : EntryKind → Option ℤ → Option String → Result (Unit {0})
unfolding require_identifier
validate_evidence directory none none = ok tt
validate_evidence directory _ _ =
    err (error "" "directory snapshot entry must not contain file evidence")
validate_evidence _ none sha256 = err (error "" "file snapshot entry byte count is invalid")
validate_evidence _ (some n) sha256 = do
  raise_if (ltb_ℤ n (pos 0)) (error "" "file snapshot entry byte count is invalid")
  _ ← require_identifier "file snapshot sha256" sha256
  ok tt

-- `_validate_entry`
unfoldable pub validate_entry : Entry → Result Entry
unfolding validate_evidence require_relative_path
validate_entry e = do
  path ← require_relative_path e.path
  raise_if (not (is_known_kind e.kind)) (error (kind_name e.kind) "unsupported snapshot entry kind")
  raise_if (ltb_ℤ e.mode (pos 0) || ltb_ℤ (pos 0o7777) e.mode)
      (error path "snapshot entry mode is invalid")
  validate_evidence e.kind e.bytes e.sha256
  ok e

abbrev pub entry_paths : List Entry → List String
entry_paths = map (λ (e : Entry). e.path)

module _ (H : Sha256) where
  -- `_snapshot_id` of `_snapshot_identity_object`
  unfoldable pub snapshot_identity : String → ℤ → ℤ → List Entry → String
  snapshot_identity session_id device inode entries =
      identity H snapshot_id_domain (snapshot_object session_id device inode entries)

  unfoldable pub validate_lab_workspace_snapshot : Snapshot → Result Snapshot
  validate_lab_workspace_snapshot s = do
    raise_if (not (str_eq s.component snapshot_component))
        (error "" "workspace snapshot component mismatch")
    raise_if (not (eqb_ℤ s.schema_version snapshot_schema_version))
        (error "" "unsupported workspace snapshot schema version")
    supplied_id ← require_identifier "snapshot_id" (some s.snapshot_id)
    session_id ← require_identifier "workspace_session_id" (some s.workspace_session_id)
    raise_if (ltb_ℤ s.workspace_device (pos 0))
        (error "workspace_device" "must be a non-negative integer")
    raise_if (ltb_ℤ s.workspace_inode (pos 0))
        (error "workspace_inode" "must be a non-negative integer")
    entries ← traverse validate_entry s.entries
    raise_if (not (is_sorted (entry_paths entries)))
        (error "" "snapshot entries are not in canonical path order")
    raise_if (not (distinct (entry_paths entries))) (error "" "snapshot contains duplicate paths")
    raise_if
        (not (
          str_eq supplied_id
            (snapshot_identity session_id s.workspace_device s.workspace_inode entries)))
        (error "" "workspace snapshot identity mismatch")
    ok s
