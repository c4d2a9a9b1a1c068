-- ===== src/Prelude/Text.antt =====
-- What the program uses of `str` and `bytes`. A text is read as its code points; its UTF-8 form is
-- a list of bytes.
use Prim.Native.Nat.{ℕ, ◌+◌, ◌/◌, ◌%◌, Ordering}
use Prim.Native.Char.{code}
use Prim.Native.String.{String}
use mathlib.Core.Bool.{Bool, true, false, ◌&&◌, ◌||◌}
use mathlib.Core.List.{List, [], ◌∷◌, ◌++◌}
use text.Mathlib.Text.{◌==◌ as str_eq}
use hands_free_auto_lab_port.Prelude.Tests.{ltb, leb, ◌==◌, if◌then◌else◌}
use Prim.Native.String

unfoldable pub codes : String → List ℕ
codes String.[] = []
codes (String.◌∷◌ c s) = code c ∷ codes s

-- `not value`
unfoldable pub is_empty : String → Bool
is_empty String.[] = true
is_empty (String.◌∷◌ c s) = false

module _ (p : ℕ → Bool) where
  unfoldable pub all_codes : List ℕ → Bool
  all_codes [] = true
  all_codes (c ∷ cs) = p c && all_codes cs

-- `"0123456789abcdef"`
unfoldable pub is_hex_lower : ℕ → Bool
is_hex_lower c = (leb b'0' c && leb c b'9') || (leb b'a' c && leb c b'f')

-- `c in value`
unfoldable pub contains_code : ℕ → List ℕ → Bool
contains_code c [] = false
contains_code c (d ∷ ds) = c == d || contains_code c ds

-- `value.startswith(c)` for one character
unfoldable pub starts_with_code : ℕ → List ℕ → Bool
starts_with_code c [] = false
starts_with_code c (d ∷ ds) = c == d

-- the part that `split` is reading goes in front of the parts after it
abbrev pub extend_head : ℕ → List (List ℕ) → List (List ℕ)
extend_head c [] = (c ∷ []) ∷ []
extend_head c (part ∷ parts) = (c ∷ part) ∷ parts

-- `value.split(separator)`: always at least one part
unfoldable pub split : ℕ → List ℕ → List (List ℕ)
split separator [] = [] ∷ []
split separator (c ∷ cs) =
    let rest = split separator cs in if c == separator then [] ∷ rest else extend_head c rest

-- `str.isspace` of one character, which is what `strip` takes away
unfoldable pub is_space : ℕ → Bool
is_space c =
    (leb 0x9 c && leb c 0xd)
    || ((leb 0x1c c && leb c 0x20)
        || (c == 0x85
            || (c == 0xa0
                || (c == 0x1680
                    || ((leb 0x2000 c && leb c 0x200a)
                        || (c == 0x2028
                            || (c == 0x2029 || (c == 0x202f || (c == 0x205f || c == 0x3000)))))))))

-- `.` and `..` as the name of a directory
abbrev pub is_dot : List ℕ → Bool
is_dot (c ∷ []) = c == b'.'
is_dot _ = false

abbrev pub is_dot_dot : List ℕ → Bool
is_dot_dot (c ∷ (d ∷ [])) = c == b'.' && d == b'.'
is_dot_dot _ = false

-- `value.encode("utf-8")`, one code point after another
unfoldable pub utf8_code : ℕ → List ℕ
utf8_code c =
    if ltb c 0x80
    then c ∷ []
    else if ltb c 0x800
    then (0xc0 + c / 0x40) ∷ (0x80 + c % 0x40) ∷ []
    else if ltb c 0x10000
    then (0xe0 + c / 0x1000) ∷ (0x80 + c / 0x40 % 0x40) ∷ (0x80 + c % 0x40) ∷ []
    else (0xf0 + c / 0x40000)
      ∷ (0x80 + c / 0x1000 % 0x40)
      ∷ (0x80 + c / 0x40 % 0x40)
      ∷ (0x80 + c % 0x40)
      ∷ []

unfoldable pub utf8 : List ℕ → List ℕ
unfolding utf8_code
utf8 [] = []
utf8 (c ∷ cs) = utf8_code c ++ utf8 cs

-- `value.encode("utf-8")`
unfoldable pub encode : String → List ℕ
unfolding utf8 codes
encode s = utf8 (codes s)

-- Python orders strings by code points
abbrev pub str_le : String → String → Bool
str_le s t = elim (String.compare s t) [ Ordering.gt ↦ false | _ ↦ true ]

-- `sorted(items, key=...)`: a stable insertion sort
module _ {ℓ} {A : Type ℓ} (key : A → String) where
  unfoldable pub insert_sorted : A → List A → List A
  insert_sorted x [] = x ∷ []
  insert_sorted x (y ∷ ys) = if str_le (key x) (key y) then x ∷ (y ∷ ys) else y ∷ insert_sorted x ys

  unfoldable pub sorted_by : List A → List A
  unfolding insert_sorted
  sorted_by [] = []
  sorted_by (x ∷ xs) = insert_sorted x (sorted_by xs)

-- `xs == ys` for two lists of strings
unfoldable pub same_list : List String → List String → Bool
same_list [] [] = true
same_list (x ∷ xs) (y ∷ ys) = str_eq x y && same_list xs ys
same_list [] (y ∷ ys) = false
same_list (x ∷ xs) [] = false

-- `xs == sorted(xs)`
unfoldable pub is_sorted : List String → Bool
unfolding same_list sorted_by
is_sorted xs = same_list xs (sorted_by (λ x. x) xs)
