-- ===== src/Json/Print.antt =====
-- The values that are serialised, and the serialiser.
use mathlib.Core.WellFounded.{Acc, WellFounded}
use mathlib.Core.Logic.{dite}
use hands_free_auto_lab_port.Prelude.{
  ℕ, zero, suc, ◌+◌, ◌-◌, ◌/◌, ◌%◌, ◌<◌, String, Bool, true, false, ◌||◌, List, [], ◌∷◌, ◌++◌, ℤ,
  pos, negsuc, arith, ltb, ◌==◌, if◌then◌else◌, codes, utf8, sorted_by,
}
use native.Mathlib.Decide.{dec_lt}

mutual
  pub data Json : Type 0 where
    null : Json
    boolean : Bool → Json
    integer : ℤ → Json
    text : String → Json
    array : Items → Json
    object : Fields → Json

  pub data Items : Type 0 where
    nil : Items
    item : Json → Items → Items

  pub data Fields : Type 0 where
    end : Fields
    field : String → Json → Fields → Fields

abbrev pub fields_of : List (String × Json) → Fields
fields_of [] = end
fields_of ((key, value) ∷ rest) = field key value (fields_of rest)

-- a `dict` literal
abbrev pub object_of : List (String × Json) → Json
object_of entries = object (fields_of entries)

Acc-below : (k n : ℕ) → n < k → Acc ◌<◌ n
Acc-below zero n h = elim h [ ]
Acc-below (suc k) n h = Acc.intro n (λ m hm. Acc-below k m (omega arith))

lt_wf : WellFounded ◌<◌
unfolding Acc-below
lt_wf = record { apply = λ n. Acc-below (suc n) n (omega arith) }

-- the decimal digits of `n`, in front of `rest`
decimal_acc : (n : ℕ) → List ℕ → Acc ◌<◌ n → List ℕ
decimal_acc n rest (Acc.intro _ smaller) =
    dite (dec_lt 9 n)
      (λ h. decimal_acc (n / 10) ((b'0' + n % 10) ∷ rest) (smaller (n / 10) (omega arith)))
      (λ _. (b'0' + n) ∷ rest)

decimal : ℕ → List ℕ
unfolding decimal_acc lt_wf dec_lt
decimal n = decimal_acc n [] (lt_wf.apply n)

print_integer : ℤ → List ℕ
unfolding decimal
print_integer (pos n) = decimal n
print_integer (negsuc n) = b'-' ∷ decimal (suc n)

hex_digit : ℕ → ℕ
hex_digit n = if ltb n 10 then b'0' + n else b'a' + (n - 10)

-- a character of a string: the short escapes, `\u00XX` for the other control characters, and any
-- other character as it is
print_code : ℕ → List ℕ
unfolding hex_digit
print_code c =
    if c == b'"' || c == 0x5c
    then 0x5c ∷ c ∷ []
    else if c == 8
    then 0x5c ∷ b'b' ∷ []
    else if c == 9
    then 0x5c ∷ b't' ∷ []
    else if c == 10
    then 0x5c ∷ b'n' ∷ []
    else if c == 12
    then 0x5c ∷ b'f' ∷ []
    else if c == 13
    then 0x5c ∷ b'r' ∷ []
    else if ltb c 32
    then 0x5c ∷ b'u' ∷ b'0' ∷ b'0' ∷ hex_digit (c / 16) ∷ hex_digit (c % 16) ∷ []
    else c ∷ []

print_codes : List ℕ → List ℕ
unfolding print_code
print_codes [] = b'"' ∷ []
print_codes (c ∷ cs) = print_code c ++ print_codes cs

print_text : String → List ℕ
unfolding print_codes codes
print_text s = b'"' ∷ print_codes (codes s)

print_boolean : Bool → List ℕ
print_boolean true = b't' ∷ b'r' ∷ b'u' ∷ b'e' ∷ []
print_boolean false = b'f' ∷ b'a' ∷ b'l' ∷ b's' ∷ b'e' ∷ []

-- the parts with `,` between them
join_commas : List (List ℕ) → List ℕ
join_commas [] = []
join_commas (p ∷ []) = p
join_commas (p ∷ (q ∷ ps)) = p ++ (b',' ∷ join_commas (q ∷ ps))

print_fields : List (String × List ℕ) → List (List ℕ)
unfolding print_text
print_fields [] = []
print_fields ((key, value) ∷ fields) = (print_text key ++ (b':' ∷ value)) ∷ print_fields fields

-- the fields of an object are sorted by their keys after each has been printed
mutual
  unfolding print_integer print_text print_boolean join_commas print_fields sorted_by

  print : Json → List ℕ
  print null = b'n' ∷ b'u' ∷ b'l' ∷ b'l' ∷ []
  print (boolean b) = print_boolean b
  print (integer n) = print_integer n
  print (text s) = print_text s
  print (array xs) = b'[' ∷ (join_commas (print_items xs) ++ (b']' ∷ []))
  print (object fs) =
      b'{' ∷ (join_commas (print_fields (sorted_by (λ f. f.0) (print_values fs))) ++ (b'}' ∷ []))

  print_items : Items → List (List ℕ)
  print_items nil = []
  print_items (item x xs) = print x ∷ print_items xs

  print_values : Fields → List (String × List ℕ)
  print_values end = []
  print_values (field key value fs) = (key, print value) ∷ print_values fs

-- the UTF-8 form of the text
unfoldable pub canonical_json_bytes : Json → List ℕ
unfolding print utf8
canonical_json_bytes value = utf8 (print value)
