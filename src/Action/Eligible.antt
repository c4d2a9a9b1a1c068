-- ===== src/Action/Eligible.antt =====
-- Which actions are eligible (lab_policy.py).
use hands_free_auto_lab_port.Prelude.{
  none, some, lab_policy_error, index_error, assertion_error, starts_with_code, ◌&&◌, codes, is_dot,
  str_eq, ◌||◌, contains_code, false, is_dot_dot, ◌>>=◌, true, raised, not, is_empty, is_nil, ◌>>◌,
  Error, if◌then◌else◌, Bool, raise_if, ok, err, Result, ℕ, same_list, split, String, List, [], ◌∷◌,
}
use hands_free_auto_lab_port.Action.Types.{read_file, write_file, run, unknown, ActionKind, Action}
use hands_free_auto_lab_port.Action.Validate.{validate_lab_action}
use hands_free_auto_lab_port.Paths.{starts_with, join, same_codes}
use hands_free_auto_lab_port.Checks.{Sha256}

abbrev pub policy_error_of : String → String → Error
policy_error_of = raised lab_policy_error

abbrev pub lab_policy : String
lab_policy = "auto-lab-mvp-v1"

abbrev pub python : String
python = "/usr/bin/python3"

abbrev pub reserved_acceptance_path : String
reserved_acceptance_path = "_hands_free_acceptance.py"

abbrev pub reserved_acceptance_sandbox_path : String
reserved_acceptance_sandbox_path = "/workspace/_hands_free_acceptance.py"

abbrev pub last_is_dot_dot : List (List ℕ) → Bool
last_is_dot_dot [] = true
last_is_dot_dot (part ∷ parts) = is_dot_dot part

abbrev pub without_last : List (List ℕ) → List (List ℕ)
without_last [] = []
without_last (part ∷ parts) = parts

-- the parts of a relative path that `posixpath.normpath` keeps, the last one first
unfoldable pub kept_parts : List (List ℕ) → List (List ℕ) → List (List ℕ)
kept_parts kept [] = kept
kept_parts kept (part ∷ parts) =
    kept_parts
      (if is_nil part || is_dot part
        then kept
        else if not (is_dot_dot part) || last_is_dot_dot kept
        then part ∷ kept
        else without_last kept)
      parts

unfoldable pub reverse_onto : List (List ℕ) → List (List ℕ) → List (List ℕ)
reverse_onto [] parts = parts
reverse_onto (part ∷ rest) parts = reverse_onto rest (part ∷ parts)

-- `posixpath.normpath` of a path that does not start with `/`
unfoldable pub normpath : List ℕ → List ℕ
unfolding kept_parts reverse_onto split join
normpath path =
    let text = join (reverse_onto (kept_parts [] (split b'/' path)) []) in
    if is_nil text then b'.' ∷ [] else text

-- `_relative_path`; the flag is the keyword argument `allow_dot`
unfoldable pub relative_path : String → Bool → String → Result String
unfolding normpath same_codes starts_with
relative_path name allow_dot value = do
  raise_if (is_empty value) (policy_error_of name "must be a non-empty string")
  raise_if (contains_code 0 (codes value)) (policy_error_of name "must not contain NUL")
  raise_if (starts_with_code b'/' (codes value))
      (policy_error_of name "must be relative to the lab workspace")
  raise_if (not (same_codes (normpath (codes value)) (codes value)))
      (policy_error_of name "must be canonical")
  raise_if (is_dot (codes value) && not allow_dot)
      (policy_error_of name "must identify a workspace entry")
  raise_if (is_dot_dot (codes value) || starts_with (codes "../") (codes value))
      (policy_error_of name "must remain inside the lab workspace")
  ok value

unfoldable pub check_module : List String → Result (Unit {0})
check_module (flag ∷ (name ∷ rest)) =
    raise_if (not (str_eq flag "-m" && str_eq name "unittest"))
      (policy_error_of "" "initial RUN policy permits only python3 -m unittest")
check_module _ = err (policy_error_of "" "initial RUN policy permits only python3 -m unittest")

-- the command is a run of the unit tests
unfoldable pub check_command : List String → Result (Unit {0})
unfolding check_module
check_command [] = err (raised index_error "" "tuple index out of range")
check_command (executable ∷ rest) = do
  raise_if (not (str_eq executable python)) (policy_error_of "" "RUN executable is not enabled")
  check_module rest

-- `_validate_unittest_run`; an action that is valid has arguments
unfoldable pub validate_unittest_run : List String → Result (Unit {0})
unfolding same_list check_command check_module
validate_unittest_run argv =
    if same_list argv (python ∷ "-I" ∷ reserved_acceptance_sandbox_path ∷ [])
    then ok tt
    else check_command argv

-- The dictionaries that it returns, for an action on a file and for a run: `policy`, `eligible`,
-- `action_id`, `kind`, `cwd`, and `path` or `argv`.
pub data Decision : Type 0 where
  file_eligible : String → Bool → String → ActionKind → String → String → Decision
  run_eligible : String → Bool → String → ActionKind → String → List String → Decision

abbrev pub is_write : ActionKind → Bool
is_write write_file = true
is_write _ = false

-- the part of the body for an action on a file
unfoldable pub evaluate_file : Action → String → Result Decision
unfolding relative_path
evaluate_file a cwd = elim (a.path) [
  | none ↦ err (raised assertion_error "" "")
  | some p ↦ (do
    path ← relative_path "path" false p
    raise_if (is_write a.kind && str_eq path reserved_acceptance_path)
        (policy_error_of "" "WRITE_FILE path is reserved for controller acceptance")
    ok (file_eligible lab_policy true a.action_id a.kind cwd path))
]

unfoldable pub evaluate_run : Action → String → Result Decision
unfolding validate_unittest_run
evaluate_run a cwd = do
  validate_unittest_run a.argv
  ok (run_eligible lab_policy true a.action_id a.kind cwd a.argv)

-- the branches on the kind
unfoldable pub evaluate_kind : ActionKind → Action → String → Result Decision
unfolding evaluate_file evaluate_run
evaluate_kind read_file a cwd = evaluate_file a cwd
evaluate_kind write_file a cwd = evaluate_file a cwd
evaluate_kind run a cwd = evaluate_run a cwd
evaluate_kind (unknown s) a cwd = err (policy_error_of "" "action kind is not enabled")

-- `except LabActionError as exc: raise LabPolicyError(...) from exc`
abbrev pub as_policy_error : Result (Unit {0}) → Result (Unit {0})
as_policy_error (ok u) = ok u
as_policy_error (err e) = err (policy_error_of "" "invalid lab action")

module _ (H : Sha256) where
  unfoldable pub evaluate_lab_policy : Action → Result Decision
  unfolding evaluate_kind
  evaluate_lab_policy a = do
    as_policy_error (validate_lab_action H a)
    cwd ← relative_path "cwd" true a.cwd
    evaluate_kind a.kind a cwd
