-- ===== src/Checks.antt =====
-- Values of any type, as a check on an `object` argument sees them, and the form of identifiers.
-- `Sha256` stands for `hashlib.sha256(data).hexdigest()`.
use hands_free_auto_lab_port.Prelude.{
  pos, eqb_ℤ, false, str_eq, ℕ, String, ◌≡◌, Bool, true, ◌&&◌, Option, none, some, List, ℤ, ◌==◌,
  codes, all_codes, is_hex_lower, length,
}
use hands_free_auto_lab_port.Json.{Json}

-- `compound` is any other value that `json.dumps` accepts, such as a list, and `object` one that it
-- does not; no check accepts these two.
pub data Value : Type 0 where
  null : Value
  boolean : Bool → Value
  integer : ℤ → Value
  text : String → Value
  compound : Json → Value
  object : Value

abbrev pub optional_text : Option String → Value
optional_text none = null
optional_text (some s) = text s

abbrev pub optional_integer : Option ℤ → Value
optional_integer none = null
optional_integer (some n) = integer n

-- the text or the number in a value whose type was checked
abbrev pub text_of : Value → String
text_of (text s) = s
text_of _ = ""

abbrev pub integer_of : Value → ℤ
integer_of (integer n) = n
integer_of _ = pos 0

-- `==` of two values neither of which is a `bool`
unfoldable pub same_value : Value → Value → Bool
same_value null null = true
same_value (text s) (text t) = str_eq s t
same_value (integer m) (integer n) = eqb_ℤ m n
same_value _ _ = false

-- a value in an identity object
abbrev pub json_value : Value → Json
json_value null = Json.null
json_value (boolean b) = Json.boolean b
json_value (integer n) = Json.integer n
json_value (text s) = Json.text s
json_value (compound j) = j
json_value object = Json.null

-- `json.dumps` raises a TypeError
abbrev pub is_object : Value → Bool
is_object object = true
is_object _ = false

-- `len(value) == size and all(character in _HEX_LOWER for character in value)`
unfoldable pub is_hex : ℕ → String → Bool
unfolding codes all_codes is_hex_lower
is_hex size s = length (codes s) == size && all_codes is_hex_lower (codes s)

-- The hash function; all that the program relies on is the form of what `hexdigest` returns.
pub record Sha256 : Type 0 where
  pub hexdigest : List ℕ → String
  pub hexdigest-IsHex : (b : List ℕ) → is_hex 64 (hexdigest b) ≡ true
