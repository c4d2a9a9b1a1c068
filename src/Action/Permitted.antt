-- ===== src/Action/Permitted.antt =====
-- Which actions are eligible, exactly (`evaluate_lab_policy` of lab_policy.py).
use hands_free_auto_lab_port.Prelude.{
  ◌>>◌, ok, ◌≡◌, ◌↔◌, ◌≢◌, All, List, [], ◌∷◌, refl, codes, contains_code, false, true, String, ℕ,
  Bool, not, ◌&&◌, is_dot, is_empty, inl, inr, sym, ap, ◌∙◌, arith, str_eq, eq_iff,
}
use hands_free_auto_lab_port.Action.Types.{read_file, write_file, run, unknown, ActionKind, Action}
use hands_free_auto_lab_port.Paths.{same_codes}
use hands_free_auto_lab_port.Action.Canonical.{
  Named-normpath, Named-relative, Named-stays, Named-nonempty,
}
use hands_free_auto_lab_port.Action.Eligible.{
  Decision, lab_policy, run_eligible, evaluate_lab_policy, relative_path, is_write,
  reserved_acceptance_path, evaluate_file, evaluate_run, evaluate_kind, validate_unittest_run,
  check_command, check_module,
}
use hands_free_auto_lab_port.Action.Allowed.{
  IsInside, IsPermitted, IsFileAction, IsRun, IsAllowed, evaluate_lab_policy-IsAllowed,
}
use hands_free_auto_lab_port.Checks.{Sha256}

contains_code_of : (cs : List ℕ) → All (λ c. c ≢ 0) cs → contains_code 0 cs ≡ false
unfolding contains_code
contains_code_of [] h = refl
contains_code_of (c ∷ cs) (h, hs) = let rest = contains_code_of cs hs in ground (arith, rest)

same_codes_self : (cs : List ℕ) → same_codes cs cs ≡ true
unfolding same_codes
same_codes_self [] = refl
same_codes_self (c ∷ cs) = let rest = same_codes_self cs in ground (arith, rest)

is_dot_of : (cs : List ℕ) → cs ≢ b'.' ∷ [] → is_dot cs ≡ false
is_dot_of [] h = refl
is_dot_of (c ∷ []) h = ground (arith, λ (e : c ≡ b'.'). h (ap (λ x. x ∷ []) e))
is_dot_of (c ∷ (d ∷ cs)) h = refl

is_empty_of : (s : String) → codes s ≢ [] → is_empty s ≡ false
unfolding codes is_empty
is_empty_of String.[] h = absurd (h refl)
is_empty_of (String.◌∷◌ c s) h = refl

and_false : (b : Bool) → (b && false) ≡ false
and_false b = ground arith

inside-relative_path :
    (name : String) (allow_dot : Bool) (value : String)
    → IsInside value
    → (is_dot (codes value) && not allow_dot) ≡ false
    → relative_path name allow_dot value ≡ ok value
unfolding relative_path
inside-relative_path name allow_dot value h entry = rw (
  is_empty_of value (Named-nonempty (codes value) h.names),
  contains_code_of (codes value) h.no_nul,
  Named-relative (codes value) h.names,
  Named-normpath (codes value) h.names,
  same_codes_self (codes value),
  entry,
  Named-stays (codes value) h.names,
)

IsPermitted-validate : (argv : List String) → IsPermitted argv → validate_unittest_run argv ≡ ok tt
unfolding validate_unittest_run check_command check_module
IsPermitted-validate argv (inl e) = ap validate_unittest_run e
IsPermitted-validate argv (inr (rest, e)) = ap validate_unittest_run e

unreserved_of :
    (k : ActionKind) (path : String)
    → (k ≡ write_file → path ≢ reserved_acceptance_path)
    → (is_write k && str_eq path reserved_acceptance_path) ≡ false
unreserved_of write_file path h = ground (arith, h refl, eq_iff path reserved_acceptance_path)
unreserved_of read_file path h = refl
unreserved_of run path h = refl
unreserved_of (unknown s) path h = refl

IsFileAction-evaluate :
    (a : Action) {d : Decision} → IsFileAction a d → evaluate_file a a.cwd ≡ ok d
unfolding evaluate_file
IsFileAction-evaluate a h = rw (
  h.given,
  inside-relative_path "path" false h.path h.inside (ap (λ b. b && true) (is_dot_of _ h.entry)),
  unreserved_of a.kind h.path h.unreserved,
  h.answer,
)

IsFileAction-evaluate_kind :
    (a : Action) {d : Decision} → IsFileAction a d → evaluate_kind a.kind a a.cwd ≡ ok d
unfolding evaluate_kind
IsFileAction-evaluate_kind a h = elim (h.kind) [
  | inl reads ↦ ap (λ k. evaluate_kind k a a.cwd) reads ∙ IsFileAction-evaluate a h
  | inr writes ↦ ap (λ k. evaluate_kind k a a.cwd) writes ∙ IsFileAction-evaluate a h
]

IsRun-evaluate_kind : (a : Action) {d : Decision} → IsRun a d → evaluate_kind a.kind a a.cwd ≡ ok d
unfolding evaluate_kind evaluate_run
IsRun-evaluate_kind a h =
    ap (λ k. evaluate_kind k a a.cwd) h.kind
    ∙ (ap (λ r. r >> ok (run_eligible lab_policy true a.action_id a.kind a.cwd a.argv))
          (IsPermitted-validate a.argv h.permitted)
        ∙ ap ok (sym h.answer))

module _ (H : Sha256) where
  IsAllowed-evaluate :
      (a : Action) {d : Decision} → IsAllowed H a d → evaluate_lab_policy H a ≡ ok d
  unfolding evaluate_lab_policy
  IsAllowed-evaluate a h =
      rw
        (
          h.valid,
          inside-relative_path "cwd" true a.cwd h.directory (and_false (is_dot (codes a.cwd))),
        )
        (elim (h.action) [
          | inl file ↦ IsFileAction-evaluate_kind a file
          | inr command ↦ IsRun-evaluate_kind a command
        ])

  -- An action is eligible exactly when it is valid, its working directory is `.` or consists of
  -- names, none of them empty, `.` or `..`, and without NUL, and it reads or writes a file whose
  -- path consists of such names, but writes no file at `_hands_free_acceptance.py`, or it runs that
  -- program with `/usr/bin/python3 -I`, or `/usr/bin/python3 -m unittest` with any arguments. The
  -- answer then says so, and names the policy, the action, its kind, its directory, and its path or
  -- its arguments.
  pub evaluate_lab_policy_iff :
      (a : Action) (d : Decision) → (evaluate_lab_policy H a ≡ ok d) ↔ IsAllowed H a d
  evaluate_lab_policy_iff a d = (evaluate_lab_policy-IsAllowed H a, IsAllowed-evaluate a)
