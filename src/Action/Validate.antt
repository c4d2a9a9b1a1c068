-- ===== src/Action/Validate.antt =====
-- An action is validated and built (lab_action.py).
use hands_free_auto_lab_port.Prelude.{
  is_nil, action_error, str_eq, traverse, ◌>>=◌, length, eqb_ℤ, ◌==◌, contains_code, ◌||◌, none,
  not, ltb, is_empty, ◌&&◌, raise_if, ok, some, ◌>>◌, raised, err, true, leb, false, Error, Bool,
  Result, codes, encode, ℕ, Option, String, List, [], ◌∷◌,
}
use hands_free_auto_lab_port.Action.Types.{
  read_file, write_file, run, unknown, max_arguments, is_known_kind, max_argument_bytes,
  max_content_bytes, action_id_domain, action_schema_version, ActionKind, kind_name, Action,
}
use hands_free_auto_lab_port.Json.{item, nil, object_of, Items, Json}
use hands_free_auto_lab_port.Proposal.{json_text, identity}
use hands_free_auto_lab_port.Checks.{Sha256}

abbrev pub error : String → String → Error
error = raised action_error

-- `_validate_text`; `none` is `None`
unfoldable pub validate_text : String → Option String → Result String
unfolding codes encode
validate_text name none = err (error name "must be a non-empty string")
validate_text name (some s) = do
  raise_if (is_empty s) (error name "must be a non-empty string")
  raise_if (contains_code 0 (codes s)) (error name "must not contain NUL")
  raise_if (ltb max_argument_bytes (length (encode s))) (error name "exceeds maximum size")
  ok s

-- `_validate_content`
unfoldable pub validate_content : Option String → Result String
unfolding encode
validate_content none = err (error "content" "must be a string")
validate_content (some s) = do
  raise_if (ltb max_content_bytes (length (encode s))) (error "content" "exceeds maximum size")
  ok s

unfoldable pub argument_items : List String → Items
argument_items [] = nil
argument_items (s ∷ ss) = item (Json.text s) (argument_items ss)

-- `_identity_object`
unfoldable pub action_object : Action → Json
unfolding argument_items kind_name
action_object a = object_of (
    ("schema_version", Json.integer a.schema_version)
    ∷ ("kind", Json.text (kind_name a.kind))
    ∷ ("path", json_text a.path)
    ∷ ("cwd", Json.text a.cwd)
    ∷ ("argv", Json.array (argument_items a.argv))
    ∷ ("content", json_text a.content)
    ∷ [])

abbrev is_some {ℓ} : {A : Type ℓ} → Option A → Bool
is_some none = false
is_some (some x) = true

-- the checks that depend on the kind
unfoldable pub check_kind : Action → Result (Unit {0})
unfolding validate_text validate_content
check_kind a = elim (a.kind) [
  | read_file ↦ (do
    _ ← validate_text "path" a.path
    raise_if (not (is_nil a.argv)) (error "" "READ_FILE must not contain argv")
    raise_if (is_some a.content) (error "" "READ_FILE must not contain content"))
  | write_file ↦ (do
    _ ← validate_text "path" a.path
    raise_if (not (is_nil a.argv)) (error "" "WRITE_FILE must not contain argv")
    _ ← validate_content a.content
    ok tt)
  | run ↦ (do
    raise_if (is_some a.path) (error "" "RUN must not contain path")
    raise_if (is_some a.content) (error "" "RUN must not contain content")
    raise_if (is_nil a.argv) (error "" "RUN requires argv"))
  | unknown s ↦ ok tt
]

abbrev is_hex_digit : ℕ → Bool
is_hex_digit c =
    (leb b'0' c && leb c b'9') || ((leb b'a' c && leb c b'f') || (leb b'A' c && leb c b'F'))

abbrev is_blank : ℕ → Bool
is_blank c = (leb 0x9 c && leb c 0xd) || c == 0x20

-- `bytes.fromhex` does not raise: pairs of digits, with blanks around them
unfoldable pub is_fromhex : List ℕ → Bool
is_fromhex [] = true
is_fromhex (c ∷ []) = is_blank c
is_fromhex (c ∷ (d ∷ cs)) = elim (is_blank c) [
  | true ↦ is_fromhex (d ∷ cs)
  | false ↦ (is_hex_digit c && is_hex_digit d) && is_fromhex cs
]

-- the action with this identifier
unfoldable pub action_of :
    String → ActionKind → Option String → String → List String → Option String → Action
action_of action_id kind path cwd argv content = record {
  schema_version = action_schema_version;
  kind = kind;
  path = path;
  cwd = cwd;
  argv = argv;
  content = content;
  action_id = action_id;
}

module _ (H : Sha256) where
  -- `_action_id`
  unfoldable pub action_identity : Action → String
  unfolding action_object
  action_identity a = identity H action_id_domain (action_object a)

  unfoldable pub validate_lab_action : Action → Result (Unit {0})
  unfolding validate_text check_kind is_fromhex
  validate_lab_action a = do
    raise_if (not (eqb_ℤ a.schema_version action_schema_version))
        (error "" "unsupported action schema version")
    raise_if (not (is_known_kind a.kind)) (error (kind_name a.kind) "unsupported action kind")
    _ ← validate_text "cwd" (some a.cwd)
    raise_if (ltb max_arguments (length a.argv)) (error "" "argv contains too many arguments")
    _ ← traverse (λ argument. validate_text "argv" (some argument)) a.argv
    check_kind a
    raise_if (not (length (codes a.action_id) == 64))
        (error "" "action_id must be a SHA-256 hex digest")
    raise_if (not (is_fromhex (codes a.action_id))) (error "" "action_id is not valid hexadecimal")
    raise_if (not (str_eq a.action_id (action_identity a))) (error "" "action_id mismatch")

  unfoldable pub build_lab_action :
      ActionKind → Option String → String → List String → Option String → Result Action
  unfolding action_of
  build_lab_action kind path cwd argv content =
      let provisional =
        action_of "0000000000000000000000000000000000000000000000000000000000000000" kind path cwd
          argv content in
      let action = action_of (action_identity provisional) kind path cwd argv content in
      do validate_lab_action action; ok action
