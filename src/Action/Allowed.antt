-- ===== src/Action/Allowed.antt =====
-- What an action that is eligible may touch or run (lab_policy.py).
use mathlib.Core.Path.{subst}
use hands_free_auto_lab_port.Prelude.{
  All, ℕ, none, ok-injective, raise_unless, ◌∙◌, sym, contains_code, ap, is_empty, eq_iff,
  raise_if-ok, ◌⊎◌, raise_if, not, inr, is_dot, Bool-cases, arith, some, str_eq, inl, false,
  >>=-eq-ok, codes, ok, true, ◌≢◌, same_list, err, starts_with_code, Option, ◌≡◌, ◌&&◌, Bool,
  String, Error, Result, List, [], ◌∷◌, refl,
}
use hands_free_auto_lab_port.Action.Types.{read_file, write_file, run, unknown, ActionKind, Action}
use hands_free_auto_lab_port.Paths.{same_codes}
use hands_free_auto_lab_port.Action.Climbing.{Named, climbing, same_codes-eq, normpath-Named}
use hands_free_auto_lab_port.Action.Eligible.{
  reserved_acceptance_path, normpath, is_write, reserved_acceptance_sandbox_path, Decision, python,
  evaluate_lab_policy, as_policy_error, evaluate_run, check_module, check_command, evaluate_kind,
  validate_unittest_run, relative_path, evaluate_file, file_eligible, run_eligible,
}
use hands_free_auto_lab_port.Action.Validate.{validate_lab_action}
use hands_free_auto_lab_port.Checks.{Sha256}

no_value {ℓ} : {A : Type ℓ} {e : Error} {x : A} → err e ≡ ok x → ⊥
no_value h = cc

no_truth : false ≡ true → ⊥
no_truth h = cc

&&-true : (a b : Bool) → (a && b) ≡ true → (a ≡ true) × (b ≡ true)
&&-true a b h = ground arith

as_policy_error_ok :
    (call : Result (Unit {0})) {u : Unit {0}} → as_policy_error call ≡ ok u → call ≡ ok tt
as_policy_error_ok (ok u) h = refl
as_policy_error_ok (err e) h = cc

-- A path of the workspace: `.`, or names joined by `/`, without NUL. A name is neither empty nor `.`
-- nor `..`, and has no `/`, so that no such path climbs.
pub record IsInside (path : String) : Type 0 where
  pub names : Named (codes path)
  pub no_nul : All (λ c. c ≢ 0) (codes path)

no_nul_of : (cs : List ℕ) → contains_code 0 cs ≡ false → All (λ c. c ≢ 0) cs
unfolding contains_code
no_nul_of [] h = tt
no_nul_of (c ∷ cs) h = ((λ e. ground arith), no_nul_of cs (ground arith))

relative_path-IsInside :
    (name : String) (allow_dot : Bool) (value : String) {path : String}
    → relative_path name allow_dot value ≡ ok path
    → (path ≡ value) × IsInside value × ((is_dot (codes value) && not allow_dot) ≡ false)
unfolding relative_path
relative_path-IsInside name allow_dot value h =
    let (_, _, h₁) = >>=-eq-ok (raise_if (is_empty value) _) _ h in
    let (_, no_nul, h₂) = >>=-eq-ok (raise_if (contains_code 0 (codes value)) _) _ h₁ in
    let (_, _, h₃) = >>=-eq-ok (raise_if (starts_with_code b'/' (codes value)) _) _ h₂ in
    let (_, canonical, h₄) =
      >>=-eq-ok (raise_if (not (same_codes (normpath (codes value)) (codes value))) _) _ h₃ in
    let (_, dot, h₅) = >>=-eq-ok (raise_if (is_dot (codes value) && not allow_dot) _) _ h₄ in
    let (_, inside, h₆) = >>=-eq-ok (raise_if (climbing (codes value)) _) _ h₅ in
    (
      sym (ok-injective h₆),
      record {
        names =
            normpath-Named (codes value) (same_codes-eq _ _ (raise_if-ok _ _ canonical))
              (raise_unless _ _ inside);
        no_nul = no_nul_of (codes value) (raise_unless _ _ no_nul);
      },
      raise_unless _ _ dot,
    )

same_list-eq : (xs ys : List String) → same_list xs ys ≡ true → xs ≡ ys
unfolding same_list
same_list-eq [] [] h = refl
same_list-eq [] (y ∷ ys) h = cc
same_list-eq (x ∷ xs) [] h = cc
same_list-eq (x ∷ xs) (y ∷ ys) h =
    let (head, rest) = &&-true (str_eq x y) _ h in
    λ i. (eq_iff x y).0 head i ∷ same_list-eq xs ys rest i

-- The commands that may run: the acceptance program, and the unit tests.
abbrev pub IsPermitted : List String → Type 0
IsPermitted argv =
    (argv ≡ "/usr/bin/python3" ∷ "-I" ∷ "/workspace/_hands_free_acceptance.py" ∷ [])
    ⊎ ((rest : List String) × (argv ≡ "/usr/bin/python3" ∷ "-m" ∷ "unittest" ∷ rest))

check_module_lem :
    (argv : List String) {u : Unit {0}}
    → check_module argv ≡ ok u
    → (rest : List String) × (argv ≡ "-m" ∷ "unittest" ∷ rest)
unfolding check_module
check_module_lem [] h = cc
check_module_lem (flag ∷ []) h = cc
check_module_lem (flag ∷ (name ∷ rest)) h =
    let (dash, module_name) =
      &&-true (str_eq flag "-m") (str_eq name "unittest") (raise_if-ok _ _ h) in
    (rest, λ i. (eq_iff flag "-m").0 dash i ∷ (eq_iff name "unittest").0 module_name i ∷ rest)

check_command_lem :
    (argv : List String) {u : Unit {0}}
    → check_command argv ≡ ok u
    → (rest : List String) × (argv ≡ python ∷ "-m" ∷ "unittest" ∷ rest)
unfolding check_command
check_command_lem [] h = cc
check_command_lem (executable ∷ argv) h =
    let (_, is_python, h₁) = >>=-eq-ok (raise_if (not (str_eq executable python)) _) _ h in
    let (rest, argv_is) = check_module_lem argv h₁ in
    (rest, λ i. (eq_iff executable python).0 (raise_if-ok _ _ is_python) i ∷ argv_is i)

validate_unittest_run-IsPermitted :
    (argv : List String) {u : Unit {0}} → validate_unittest_run argv ≡ ok u → IsPermitted argv
unfolding validate_unittest_run
validate_unittest_run-IsPermitted argv h =
    elim (Bool-cases (same_list argv (python ∷ "-I" ∷ reserved_acceptance_sandbox_path ∷ []))) [
      | inl same ↦ inl (same_list-eq _ _ same)
      | inr other ↦ inr (check_command_lem argv (rw other at h))
    ]

-- What is permitted for an action on a file.
pub record IsFileAction (a : Action) (d : Decision) : Type 0 where
  pub kind : (a.kind ≡ read_file) ⊎ (a.kind ≡ write_file)
  pub path : String
  pub given : a.path ≡ some path
  pub inside : IsInside path
  pub entry : codes path ≢ b'.' ∷ []
  pub unreserved : a.kind ≡ write_file → path ≢ "_hands_free_acceptance.py"
  pub answer : d ≡ file_eligible "auto-lab-mvp-v1" true a.action_id a.kind a.cwd path

-- What is permitted for a run.
pub record IsRun (a : Action) (d : Decision) : Type 0 where
  pub kind : a.kind ≡ run
  pub permitted : IsPermitted a.argv
  pub answer : d ≡ run_eligible "auto-lab-mvp-v1" true a.action_id a.kind a.cwd a.argv

entry_lem : (path : List ℕ) → is_dot path ≡ false → path ≢ b'.' ∷ []
entry_lem path h e = no_truth (sym h ∙ ap is_dot e)

unreserved_lem :
    (k : ActionKind) (path : String)
    → (is_write k && str_eq path reserved_acceptance_path) ≡ false
    → k ≡ write_file
    → path ≢ reserved_acceptance_path
unreserved_lem k path h w e = no_truth (
    sym h
    ∙ (ap (λ x. is_write x && str_eq path reserved_acceptance_path) w
        ∙ (eq_iff path reserved_acceptance_path).1 e))

evaluate_file-IsFileAction :
    (a : Action) (o : Option String) {d : Decision}
    → (a.kind ≡ read_file) ⊎ (a.kind ≡ write_file)
    → a.path ≡ o
    → evaluate_file a a.cwd ≡ ok d
    → IsFileAction a d
unfolding evaluate_file
evaluate_file-IsFileAction a none k is h = absurd (no_value (rw is at h))
evaluate_file-IsFileAction a (some p) k is h =
    let h₀ = rw is at h in
    let (path, inside, h₁) = >>=-eq-ok (relative_path "path" false p) _ h₀ in
    let (_, reserved, h₂) =
      >>=-eq-ok (raise_if (is_write a.kind && str_eq path reserved_acceptance_path) _) _ h₁ in
    let (same, within, dot) = relative_path-IsInside "path" false p inside in
    record {
      kind = k;
      path = p;
      given = is;
      inside = within;
      entry = entry_lem (codes p) (ground (arith, dot));
      unreserved = λ w e. unreserved_lem a.kind path (raise_unless _ _ reserved) w (same ∙ e);
      answer =
          sym (ok-injective h₂)
          ∙ ap (file_eligible "auto-lab-mvp-v1" true a.action_id a.kind a.cwd) same;
    }

evaluate_kind-allowed :
    (a : Action) (k : ActionKind) {d : Decision}
    → a.kind ≡ k
    → evaluate_kind k a a.cwd ≡ ok d
    → IsFileAction a d ⊎ IsRun a d
unfolding evaluate_kind evaluate_run
evaluate_kind-allowed a read_file is h = inl (evaluate_file-IsFileAction a a.path (inl is) refl h)
evaluate_kind-allowed a write_file is h = inl (evaluate_file-IsFileAction a a.path (inr is) refl h)
evaluate_kind-allowed a run is h =
    let (_, permitted, h₁) = >>=-eq-ok (validate_unittest_run a.argv) _ h in
    inr (record {
      kind = is;
      permitted = validate_unittest_run-IsPermitted a.argv permitted;
      answer = sym (ok-injective h₁);
    })
evaluate_kind-allowed a (unknown s) is h = absurd (no_value h)

module _ (H : Sha256) where
  -- What is permitted, and what is answered then.
  pub record IsAllowed (a : Action) (d : Decision) : Type 0 where
    pub valid : validate_lab_action H a ≡ ok tt
    pub directory : IsInside a.cwd
    pub action : IsFileAction a d ⊎ IsRun a d

  pub evaluate_lab_policy-IsAllowed :
      (a : Action) {d : Decision} → evaluate_lab_policy H a ≡ ok d → IsAllowed a d
  unfolding evaluate_lab_policy
  evaluate_lab_policy-IsAllowed a {d = d} h =
      let (_, valid, h₁) = >>=-eq-ok (as_policy_error (validate_lab_action H a)) _ h in
      let (cwd, inside, h₂) = >>=-eq-ok (relative_path "cwd" true a.cwd) _ h₁ in
      let (same, within, _) = relative_path-IsInside "cwd" true a.cwd inside in
      record {
        valid = as_policy_error_ok _ valid;
        directory = within;
        action =
            evaluate_kind-allowed a a.kind refl
              (subst (λ x. evaluate_kind a.kind a x ≡ ok d) same h₂);
      }
