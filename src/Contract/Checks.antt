-- ===== src/Contract/Checks.antt =====
-- The checks on single fields (`_require_*` of lab_coding_integration_contract.py).
use hands_free_auto_lab_port.Prelude.{
  encode, length, ltb, contains_code, err, ◌||◌, pos, is_space, all_codes, not, ltb_ℤ, ◌>>◌,
  raise_if, ◌>>=◌, contract_error, ok, raised, ℕ, Error, Result, codes, String,
}
use hands_free_auto_lab_port.Checks.{null, is_hex, text, integer, Value}
use hands_free_auto_lab_port.Contract.Types.{max_integration_runtime_seconds}
use hands_free_auto_lab_port.Paths.{is_git_path, is_canonical_absolute, is_canonical}

abbrev pub error : String → String → Error
error = raised contract_error

unfoldable pub require_identifier : String → ℕ → Value → Result String
require_identifier name size (text s) = do
  raise_if (not (is_hex size s)) (error name "must be a lowercase hex identifier of its length")
  ok s
require_identifier name size _ = err (error name "must be a lowercase hex identifier of its length")

-- A text of antt has no lone surrogates, so that it can always be encoded.
unfoldable pub require_text : String → ℕ → Value → Result String
unfolding codes
require_text name maximum (text s) = do
  raise_if (all_codes is_space (codes s) || contains_code 0 (codes s))
      (error name "must be a non-empty string without NUL")
  raise_if (ltb maximum (length (encode s))) (error name "exceeds maximum size")
  ok s
require_text name maximum _ = err (error name "must be a non-empty string without NUL")

unfoldable pub require_absolute_path : String → Value → Result String
unfolding require_text
require_absolute_path name value = do
  s ← require_text name 4096 value
  raise_if (not (is_canonical_absolute (codes s)))
      (error name "must be an absolute normalized path")
  ok s

unfoldable pub require_relative_path : Value → Result String
unfolding require_text
require_relative_path value = do
  s ← require_text "relative path" 4096 value
  raise_if (not (is_canonical (codes s)) || is_git_path (codes s))
      (error "" "relative path must be canonical, relative, and outside .git")
  ok s

-- `expected_branch`, which may be `None`
unfoldable pub require_branch : Value → Result (Unit {0})
unfolding require_text
require_branch null = ok tt
require_branch value = do _ ← require_text "expected_branch" 1024 value; ok tt

-- the bounds of `max_runtime_seconds`
unfoldable pub require_runtime : Value → Result (Unit {0})
require_runtime (integer n) =
    raise_if (ltb_ℤ n (pos 1) || ltb_ℤ max_integration_runtime_seconds n)
      (error "" "max_runtime_seconds is outside the supported range")
require_runtime _ = err (error "" "max_runtime_seconds is outside the supported range")
