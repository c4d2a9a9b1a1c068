-- ===== src/Approval/Checks.antt =====
-- A record is decoded, and its fields are checked (`_decode_record` and `_validate_...` of
-- lab_promotion_approval_state.py).
use hands_free_auto_lab_port.Prelude.{
  false, ◌&&◌, length, ◌==◌, neg_part, true, [], ◌||◌, ◌+◌, is_nil, eqb_ℤ, pos_part, str_eq, ◌∷◌,
  ◌++◌, approval_state_error, some, ltb_ℤ, same_set, ◌>>◌, none, ltb, not, ◌>>=◌, ok, Bool,
  raise_if, raised, ℕ, err, Result, Error, String, Option, List,
}
use hands_free_auto_lab_port.Approval.Types.{max_record_bytes, schema_version, Readers}
use hands_free_auto_lab_port.Checks.{is_hex}
use hands_free_auto_lab_port.Json.{Fields, field_names, canonical_json_bytes, Json}

abbrev pub error : String → String → Error
error = raised approval_state_error

-- `_canonical_json_bytes`, which ends in a newline
unfoldable pub record_bytes_of : Json → List ℕ
unfolding canonical_json_bytes
record_bytes_of value = canonical_json_bytes value ++ (10 ∷ [])

-- `==` of two byte strings
unfoldable pub same_bytes : List ℕ → List ℕ → Bool
same_bytes [] [] = true
same_bytes (b ∷ bs) (c ∷ cs) = b == c && same_bytes bs cs
same_bytes [] (c ∷ cs) = false
same_bytes (b ∷ bs) [] = false

-- what a reader returned, or the error in its place
abbrev pub or_raise {ℓ} : {A : Type ℓ} → Option A → Error → Result A
or_raise none e = err e
or_raise (some x) e = ok x

-- `isinstance(value, dict)`
abbrev pub as_fields : Json → Error → Result Fields
as_fields (Json.object fs) e = ok fs
as_fields _ e = err e

-- `isinstance(value, str)`
abbrev pub as_string : Json → Error → Result String
as_string (Json.text s) e = ok s
as_string _ e = err e

unfoldable pub validate_schema : Json → Result (Unit {0})
validate_schema (Json.integer n) =
    raise_if (not (eqb_ℤ n schema_version)) (error "" "schema_version mismatch")
validate_schema _ = err (error "" "schema_version mismatch")

unfoldable pub validate_fixed_string : String → Json → String → Result (Unit {0})
validate_fixed_string name (Json.text s) expected =
    raise_if (not (str_eq s expected)) (error name "mismatch")
validate_fixed_string name _ expected = err (error name "mismatch")

unfoldable pub validate_identifier : String → Json → Result String
validate_identifier name value = do
  s ← as_string value (error name "must be a string")
  raise_if (not (is_hex 64 s)) (error name "must be a lowercase 64-character hex identifier")
  ok s

unfoldable pub validate_optional_identifier : String → Json → Result (Option String)
unfolding validate_identifier
validate_optional_identifier name Json.null = ok none
validate_optional_identifier name value = do s ← validate_identifier name value; ok (some s)

module _ (R : Readers) where
  -- The bytes have the exact type, so that the first check has no branch.
  unfoldable pub decode_record : List ℕ → List String → String → Result Fields
  unfolding field_names same_set record_bytes_of same_bytes
  decode_record record_bytes fields record_name = do
    raise_if (is_nil record_bytes || ltb max_record_bytes (length record_bytes))
        (error record_name "size is invalid")
    text ← or_raise (R.decode record_bytes) (error record_name "is not UTF-8")
    value ← or_raise (R.loads text) (error record_name "is not valid JSON")
    fs ← as_fields value (error record_name "must be a JSON object")
    raise_if (not (same_set (field_names fs) fields))
        (error record_name "fields do not exactly match schema")
    raise_if (not (same_bytes (record_bytes_of (Json.object fs)) record_bytes))
        (error record_name "is not canonical JSON")
    ok fs

  unfoldable pub validate_timestamp : String → Json → Result R.Moment
  validate_timestamp name value = do
    s ← as_string value (error name "must be a string")
    parsed ← or_raise (R.fromisoformat s) (error name "must be an ISO-8601 timestamp")
    raise_if (not (R.is_aware parsed)) (error name "must be timezone-aware")
    raise_if (not (str_eq (R.isoformat parsed) s)) (error name "must be canonical ISO-8601")
    ok parsed

  -- `a < b`
  abbrev pub earlier : R.Moment → R.Moment → Bool
  earlier a b = ltb_ℤ (R.instant a) (R.instant b)

  -- `b - a > limit`
  abbrev pub longer_than : ℕ → R.Moment → R.Moment → Bool
  longer_than limit a b =
      ltb (pos_part (R.instant a) + neg_part (R.instant b) + limit)
        (pos_part (R.instant b) + neg_part (R.instant a))
