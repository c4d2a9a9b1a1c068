-- ===== src/Policy/Checks.antt =====
-- The checks on single fields (`_require_*` of lab_worker_change_policy.py).
use Prim.Native.Nat.{bit_and}
use hands_free_auto_lab_port.Prelude.{
  ℕ, String, not, ◌||◌, ℤ, pos, ltb, ltb_ℤ, ◌==◌, Error, raised, change_policy_error, Result, ok,
  err, raise_if, ◌>>◌, is_empty, codes, contains_code,
}
use hands_free_auto_lab_port.Checks.{Value, text, integer, is_hex}
use hands_free_auto_lab_port.Paths.{is_canonical, is_git_path}

abbrev pub error : String → String → Error
error = raised change_policy_error

unfoldable pub require_identifier : String → Value → Result String
require_identifier name (text s) = do
  raise_if (not (is_hex 64 s)) (error name "must be a lowercase 64-character hex identifier")
  ok s
require_identifier name _ = err (error name "must be a lowercase 64-character hex identifier")

unfoldable pub require_relative_path : Value → Result String
require_relative_path (text s) = do
  raise_if (is_empty s || contains_code 0 (codes s))
      (error "" "change-policy path must be a non-empty string without NUL")
  raise_if (not (is_canonical (codes s)) || is_git_path (codes s))
      (error "" "change-policy path must be canonical, relative, and outside .git")
  ok s
require_relative_path _ = err (error "" "change-policy path must be a non-empty string without NUL")

unfoldable pub require_nonnegative_int : String → Value → Result ℤ
require_nonnegative_int name (integer n) = do
  raise_if (ltb_ℤ n (pos 0)) (error name "must be an exact non-negative integer")
  ok n
require_nonnegative_int name _ = err (error name "must be an exact non-negative integer")

unfoldable pub require_positive_int : String → Value → Result ℤ
require_positive_int name (integer n) = do
  raise_if (ltb_ℤ n (pos 1)) (error name "must be an exact positive integer")
  ok n
require_positive_int name _ = err (error name "must be an exact positive integer")

-- the three masks
unfoldable pub check_mode_bits : String → ℕ → Result (Unit {0})
check_mode_bits name n = do
  raise_if (not (bit_and n 0o7000 == 0)) (error name "must not contain special mode bits")
  raise_if (not (bit_and n 0o111 == 0)) (error name "must not be executable")
  raise_if (not (bit_and n 0o022 == 0)) (error name "must not be group- or other-writable")

unfoldable pub require_mode : String → Value → Result ℤ
unfolding check_mode_bits
require_mode name (integer (pos n)) = do
  raise_if (ltb 0o7777 n) (error name "must be an exact valid mode")
  check_mode_bits name n
  ok (pos n)
require_mode name _ = err (error name "must be an exact valid mode")
