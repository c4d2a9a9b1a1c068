-- ===== src/Approval/Fields.antt =====
-- What the checks on a record and on its fields say of them (lab_promotion_approval_state.py).
use mathlib.Core.Path.{subst}
use hands_free_auto_lab_port.Approval.Names.{SameNames, same_set-SameNames}
use hands_free_auto_lab_port.Prelude.{
  pos, ◌==◌, refl, raise_unless, inr, str_eq, inl, sym, same_set, none, not, ◌⊎◌, raise_if, false,
  ltb, raise_if-ok, ◌≤◌, eq_iff, ok-injective, ◌∙◌, ap, length, >>=-eq-ok, arith, contains, ◌||◌,
  true, some, ok, is_nil, ℕ, ◌≡◌, ◌&&◌, String, Option, List, Bool, Error, [], ◌∷◌,
}
use hands_free_auto_lab_port.Json.{field_names, get_field, Fields, Json}
use hands_free_auto_lab_port.Approval.Types.{max_record_bytes, channel, schema_version, Readers}
use hands_free_auto_lab_port.Approval.Checks.{
  error, record_bytes_of, validate_timestamp, as_fields, as_string, decode_record, or_raise,
  validate_schema, same_bytes, validate_fixed_string, validate_identifier,
  validate_optional_identifier,
}
use hands_free_auto_lab_port.Approval.Records.{
  is_some, check_timestamp, check_head, check_identifier, one_of, check_optional_identifier,
}
use hands_free_auto_lab_port.Checks.{is_hex}
use hands_free_auto_lab_port.Snapshot.Changes.{eqb_ℤ-eq}

pub &&-true : (a b : Bool) → (a && b) ≡ true → (a ≡ true) × (b ≡ true)
&&-true a b h = ground arith

or_raise-ok {ℓ} : {A : Type ℓ} (o : Option A) (e : Error) {x : A} → or_raise o e ≡ ok x → o ≡ some x
or_raise-ok none e h = cc
or_raise-ok (some y) e h = ap some (ok-injective h)

as_string-ok :
    (value : Json) (e : Error) {s : String} → as_string value e ≡ ok s → value ≡ Json.text s
as_string-ok (Json.text t) e h = ap Json.text (ok-injective h)
as_string-ok _ e h = cc

as_fields-ok :
    (value : Json) (e : Error) {fs : Fields} → as_fields value e ≡ ok fs → value ≡ Json.object fs
as_fields-ok (Json.object gs) e h = ap Json.object (ok-injective h)
as_fields-ok _ e h = cc

same_bytes-eq : (bs cs : List ℕ) → same_bytes bs cs ≡ true → bs ≡ cs
unfolding same_bytes
same_bytes-eq [] [] h = refl
same_bytes-eq (b ∷ bs) (c ∷ cs) h =
    let (head, rest) = &&-true (b == c) _ h in
    let same : b ≡ c = ground (arith, head) in λ i. same i ∷ same_bytes-eq bs cs rest i
same_bytes-eq [] (c ∷ cs) h = cc
same_bytes-eq (b ∷ bs) [] h = cc

-- A field holds a text, or an identifier.
abbrev pub HasText : String → String → Fields → Type 0
HasText name s fs = get_field name fs ≡ ok (Json.text s)

abbrev pub HasIdentifier : String → Fields → Type 0
HasIdentifier name fs = (s : String) × HasText name s fs × (is_hex 64 s ≡ true)

validate_identifier_lem :
    (name : String) (value : Json) {s : String}
    → validate_identifier name value ≡ ok s
    → (value ≡ Json.text s) × (is_hex 64 s ≡ true)
unfolding validate_identifier
validate_identifier_lem name value h =
    let (s, string, h₁) = >>=-eq-ok (as_string value (error name "must be a string")) _ h in
    let (_, hex, h₂) = >>=-eq-ok (raise_if (not (is_hex 64 s)) _) _ h₁ in
    let same = ok-injective h₂ in
    (
      as_string-ok value _ string ∙ ap Json.text same,
      ap (is_hex 64) (sym same) ∙ raise_if-ok _ _ hex,
    )

pub check_identifier_lem :
    (name : String) (fs : Fields) {s : String}
    → check_identifier name fs ≡ ok s
    → HasIdentifier name fs
unfolding check_identifier
check_identifier_lem name fs {s} h =
    let (value, found, h₁) = >>=-eq-ok (get_field name fs) _ h in
    let (value_is, hex) = validate_identifier_lem name value h₁ in (s, found ∙ ap ok value_is, hex)

optional_lem :
    (name : String) (value : Json) (o : Option String)
    → validate_optional_identifier name value ≡ ok o
    → ((is_some o ≡ false) × (value ≡ Json.null))
      ⊎ ((is_some o ≡ true) × ((s : String) × (value ≡ Json.text s) × (is_hex 64 s ≡ true)))
unfolding validate_optional_identifier
optional_lem name Json.null o h = inl (ap is_some (sym (ok-injective h)), refl)
optional_lem name value o h =
    let (s, valid, h₁) = >>=-eq-ok (validate_identifier name value) (λ x. ok (some x)) h in
    let (value_is, hex) = validate_identifier_lem name value valid in
    inr (ap is_some (sym (ok-injective h₁)), (s, value_is, hex))

-- The field of an optional identifier holds null or an identifier.
pub check_optional_identifier_lem :
    (name : String) (fs : Fields) (o : Option String)
    → check_optional_identifier name fs ≡ ok o
    → ((is_some o ≡ false) × (get_field name fs ≡ ok Json.null))
      ⊎ ((is_some o ≡ true) × HasIdentifier name fs)
unfolding check_optional_identifier
check_optional_identifier_lem name fs o h =
    let (value, found, h₁) = >>=-eq-ok (get_field name fs) _ h in
    elim (optional_lem name value o h₁) [
      | inl (empty, value_is) ↦ inl (empty, found ∙ ap ok value_is)
      | inr (full, (s, value_is, hex)) ↦ inr (full, (s, found ∙ ap ok value_is, hex))
    ]

-- The first fields of a record are those of its kind.
pub record HasHead (component_name component : String) (fs : Fields) : Type 0 where
  pub schema : get_field "schema_version" fs ≡ ok (Json.integer (pos 1))
  pub kind : HasText component_name component fs
  pub of_promotion : HasText "channel" "promotion" fs

validate_fixed_string_lem :
    (name : String) (value : Json) (expected : String) {u : Unit {0}}
    → validate_fixed_string name value expected ≡ ok u
    → value ≡ Json.text expected
unfolding validate_fixed_string
validate_fixed_string_lem name (Json.text s) expected h =
    ap Json.text ((eq_iff s expected).0 (raise_if-ok _ _ h))
validate_fixed_string_lem name _ expected h = cc

validate_schema_lem :
    (value : Json) {u : Unit {0}}
    → validate_schema value ≡ ok u
    → value ≡ Json.integer schema_version
unfolding validate_schema
validate_schema_lem (Json.integer n) h =
    ap Json.integer (eqb_ℤ-eq n schema_version (raise_if-ok _ _ h))
validate_schema_lem _ h = cc

pub check_head_lem :
    (component_name component : String) (fs : Fields) {u : Unit {0}}
    → check_head component_name component fs ≡ ok u
    → HasHead component_name component fs
unfolding check_head
check_head_lem component_name component fs h =
    let (schema, es, h₁) = >>=-eq-ok (get_field "schema_version" fs) _ h in
    let (_, valid, h₂) = >>=-eq-ok (validate_schema schema) _ h₁ in
    let (supplied, ec, h₃) = >>=-eq-ok (get_field component_name fs) _ h₂ in
    let (_, fixed, h₄) = >>=-eq-ok (validate_fixed_string component_name supplied component) _ h₃ in
    let (on, eo, h₅) = >>=-eq-ok (get_field "channel" fs) _ h₄ in
    record {
      schema = es ∙ ap ok (validate_schema_lem schema valid);
      kind = ec ∙ ap ok (validate_fixed_string_lem component_name supplied component fixed);
      of_promotion = eo ∙ ap ok (validate_fixed_string_lem "channel" on channel h₅);
    }

-- The text is one of the names.
pub one_of_lem :
    (value : Json) (names : List String) (e : Error) {s : String}
    → one_of value names e ≡ ok s
    → (value ≡ Json.text s) × (contains s names ≡ true)
unfolding one_of
one_of_lem (Json.text t) names e h =
    let (_, here, h₁) = >>=-eq-ok (raise_if (not (contains t names)) e) _ h in
    let same = ok-injective h₁ in
    (ap Json.text same, ap (λ x. contains x names) (sym same) ∙ raise_if-ok _ _ here)
one_of_lem _ names e h = cc

bounded_size :
    (bytes : List ℕ)
    → (is_nil bytes || ltb max_record_bytes (length bytes)) ≡ false
    → length bytes ≤ 4096
bounded_size bytes h = ground arith

module _ (R : Readers) where
  -- The bytes are the canonical form of the fields, which are those of the schema, and at most 4096.
  pub record IsRecord (bytes : List ℕ) (schema : List String) (fs : Fields) : Type 0 where
    pub canonical : bytes ≡ record_bytes_of (Json.object fs)
    pub within : length bytes ≤ 4096
    pub exact : SameNames (field_names fs) schema

  pub decode_record-IsRecord :
      (bytes : List ℕ) (schema : List String) (name : String) {fs : Fields}
      → decode_record R bytes schema name ≡ ok fs
      → IsRecord bytes schema fs
  unfolding decode_record
  decode_record-IsRecord bytes schema name h =
      let (_, size, h₁) =
        >>=-eq-ok (raise_if (is_nil bytes || ltb max_record_bytes (length bytes)) _) _ h in
      let (text, _, h₂) = >>=-eq-ok (or_raise (R.decode bytes) _) _ h₁ in
      let (value, _, h₃) = >>=-eq-ok (or_raise (R.loads text) _) _ h₂ in
      let (gs, _, h₄) = >>=-eq-ok (as_fields value _) _ h₃ in
      let (_, exact, h₅) = >>=-eq-ok (raise_if (not (same_set (field_names gs) schema)) _) _ h₄ in
      let (_, canonical, h₆) =
        >>=-eq-ok (raise_if (not (same_bytes (record_bytes_of (Json.object gs)) bytes)) _) _ h₅ in
      subst (IsRecord bytes schema) (ok-injective h₆) (record {
        canonical = sym (same_bytes-eq _ _ (raise_if-ok _ _ canonical));
        within = bounded_size bytes (raise_unless _ _ size);
        exact = same_set-SameNames _ _ (raise_if-ok _ _ exact);
      })

  -- A field holds the canonical form of an aware moment.
  pub record HasMoment (name : String) (m : R.Moment) (fs : Fields) : Type 0 where
    pub stamp : String
    pub held : HasText name stamp fs
    pub parsed : R.fromisoformat stamp ≡ some m
    pub aware : R.is_aware m ≡ true
    pub printed : R.isoformat m ≡ stamp

  pub check_timestamp_lem :
      (name : String) (fs : Fields) {m : R.Moment}
      → check_timestamp R name fs ≡ ok m
      → HasMoment name m fs
  unfolding check_timestamp validate_timestamp
  check_timestamp_lem name fs h =
      let (value, found, h₁) = >>=-eq-ok (get_field name fs) _ h in
      let (s, string, h₂) = >>=-eq-ok (as_string value _) _ h₁ in
      let (moment, parsed, h₃) = >>=-eq-ok (or_raise (R.fromisoformat s) _) _ h₂ in
      let (_, aware, h₄) = >>=-eq-ok (raise_if (not (R.is_aware moment)) _) _ h₃ in
      let (_, printed, h₅) = >>=-eq-ok (raise_if (not (str_eq (R.isoformat moment) s)) _) _ h₄ in
      subst (λ x. HasMoment name x fs) (ok-injective h₅)
        (record {
          stamp = s;
          held = found ∙ ap ok (as_string-ok value _ string);
          parsed = or_raise-ok _ _ parsed;
          aware = raise_if-ok _ _ aware;
          printed = (eq_iff _ s).0 (raise_if-ok _ _ printed);
        })
