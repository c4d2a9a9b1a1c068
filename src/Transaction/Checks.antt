-- ===== src/Transaction/Checks.antt =====
-- The checks on single fields (`_require_*` of lab_promotion_transaction_state.py).
use hands_free_auto_lab_port.Prelude.{
  is_dot_dot, is_dot, ℕ, String, Bool, false, not, ◌&&◌, ◌||◌, List, [], ◌∷◌, ℤ, pos, ltb_ℤ, Result,
  ok, err, Error, raised, transaction_state_error, raise_if, ◌>>=◌, ◌>>◌, ◌==◌, is_empty, codes,
  contains_code, starts_with_code, split, any, is_nil,
}
use hands_free_auto_lab_port.Checks.{Value, null, boolean, integer, text, compound, object, is_hex}

abbrev pub error : String → String → Error
error = raised transaction_state_error

-- `isinstance(value, str)`
abbrev as_text : Value → Error → Result String
as_text (text s) e = ok s
as_text null e = err e
as_text (boolean _) e = err e
as_text (integer _) e = err e
as_text (compound _) e = err e
as_text object e = err e

-- an `int` that is no `bool`
abbrev as_integer : Value → Error → Result ℤ
as_integer (integer n) e = ok n
as_integer null e = err e
as_integer (boolean _) e = err e
as_integer (text _) e = err e
as_integer (compound _) e = err e
as_integer object e = err e

-- The flag is the keyword argument `allow_empty`.
unfoldable pub require_text : String → Value → Bool → Result String
require_text name value allow_empty = do
  s ← as_text value (error name "must be a string")
  raise_if (not allow_empty && is_empty s) (error name "must not be empty")
  raise_if (contains_code 0 (codes s)) (error name "must not contain NUL")
  ok s

unfoldable pub require_integer : String → Value → ℤ → Result ℤ
require_integer name value minimum = do
  n ← as_integer value (error name "must be an integer >= the minimum")
  raise_if (ltb_ℤ n minimum) (error name "must be an integer >= the minimum")
  ok n

unfoldable pub require_hex_identifier : String → Value → Result String
require_hex_identifier name value = do
  s ← as_text value (error name "must be a string")
  raise_if (not (is_hex 64 s)) (error name "must be a lowercase 64-character hex identifier")
  ok s

unfoldable pub require_plain_mode : String → Value → Result ℤ
require_plain_mode name value = do
  n ← as_integer value (error name "must be an integer from 0000 through 0777")
  raise_if (ltb_ℤ n (pos 0) || ltb_ℤ (pos 0o777) n)
      (error name "must be an integer from 0000 through 0777")
  ok n

unfoldable pub require_sha256 : String → Value → Result String
unfolding require_hex_identifier
require_sha256 name value = require_hex_identifier name value

unfoldable pub require_git_head : Value → Result String
require_git_head value = do
  s ← as_text value (error "head" "must be a string")
  raise_if (not (is_hex 40 s || is_hex 64 s))
      (error "head" "must be a lowercase 40- or 64-character Git object ID")
  ok s

abbrev tail : List (List ℕ) → List (List ℕ)
tail [] = []
tail (p ∷ ps) = ps

abbrev is_root : List ℕ → Bool
is_root [] = false
is_root (c ∷ cs) = c == b'/' && is_nil cs

-- no empty part after the first, and no `.` or `..` in any
unfoldable pub is_normalized : List ℕ → Bool
unfolding split any
is_normalized path =
    is_root path
    || not (
        any is_nil (tail (split b'/' path))
        || (any is_dot (split b'/' path) || any is_dot_dot (split b'/' path)))

unfoldable pub require_repository_path : Value → Result String
unfolding require_text
require_repository_path value = do
  path ← require_text "repository_path" value false
  raise_if (not (starts_with_code b'/' (codes path))) (error "repository_path" "must be absolute")
  raise_if (not (is_normalized (codes path))) (error "repository_path" "must be normalized")
  ok path

unfoldable pub is_canonical_relative : List ℕ → Bool
unfolding split any contains_code starts_with_code
is_canonical_relative path =
    not (starts_with_code b'/' path || contains_code 0x5c path)
    && not (any (λ part. is_nil part || (is_dot part || is_dot_dot part)) (split b'/' path))

unfoldable pub require_relative_path : Value → Result String
unfolding require_text
require_relative_path value = do
  path ← require_text "file path" value false
  raise_if (not (is_canonical_relative (codes path))) (error path "file path is not canonical")
  ok path
