-- ===== src/Contract/Plain.antt =====
-- Values that a check has accepted are those that a wire value gives back, and a target, a policy
-- and a request consist of such values (lab_coding_integration_contract.py).
use hands_free_auto_lab_port.Prelude.{
  false, raise_unless, inr, raise_if-ok, ◌||◌, inl, Bool-cases, raise_if, not, refl, ◌∷◌, true,
  arith, >>=-eq-ok, List, pos, ok, ◌≡◌, ℕ, ℤ, traverse, String, [],
}
use hands_free_auto_lab_port.Policy.Types.{operation_modify, Target}
use hands_free_auto_lab_port.Policy.Validate.{
  is_modify, is_add, validate_before, validate_lab_worker_change_target,
}
use hands_free_auto_lab_port.Checks.{is_hex, null, json_value, text, integer, Value}
use hands_free_auto_lab_port.Contract.Request.{value_items, items_values}
use hands_free_auto_lab_port.Contract.Wire.{value_of_json}
use hands_free_auto_lab_port.Contract.Checks.{
  require_absolute_path, require_identifier, require_relative_path, require_branch, require_runtime,
  require_text,
}
use hands_free_auto_lab_port.Policy.Allowed.{same_value-eq, &&-true}
use hands_free_auto_lab_port.Policy.Checks as P

abbrev pub IsPlain : Value → Type 0
IsPlain v = value_of_json (json_value v) ≡ v

pub text-IsPlain : {v : Value} {s : String} → v ≡ text s → IsPlain v
text-IsPlain h = rw h refl

pub null-IsPlain : {v : Value} → v ≡ null → IsPlain v
null-IsPlain h = rw h refl

pub integer-IsPlain : {v : Value} {n : ℤ} → v ≡ integer n → IsPlain v
integer-IsPlain h = rw h refl

pub require_identifier_text :
    (name : String) (size : ℕ) (v : Value) {s : String}
    → require_identifier name size v ≡ ok s
    → (v ≡ text s) × (is_hex size s ≡ true)
unfolding require_identifier
require_identifier_text name size (text t) h = ground arith
require_identifier_text name size _ h = cc

pub require_text_text :
    (name : String) (limit : ℕ) (v : Value) {s : String}
    → require_text name limit v ≡ ok s
    → v ≡ text s
unfolding require_text
require_text_text name limit (text t) h = ground arith
require_text_text name limit _ h = cc

pub require_absolute_path-IsPlain :
    (name : String) (v : Value) {s : String} → require_absolute_path name v ≡ ok s → IsPlain v
unfolding require_absolute_path
require_absolute_path-IsPlain name v h =
    let (t, et, _) = >>=-eq-ok (require_text name 4096 v) _ h in
    text-IsPlain (require_text_text name 4096 v et)

require_relative_path-IsPlain :
    (v : Value) {s : String} → require_relative_path v ≡ ok s → IsPlain v
unfolding require_relative_path
require_relative_path-IsPlain v h =
    let (t, et, _) = >>=-eq-ok (require_text "relative path" 4096 v) _ h in
    text-IsPlain (require_text_text "relative path" 4096 v et)

pub require_branch-IsPlain : (v : Value) {u : Unit {0}} → require_branch v ≡ ok u → IsPlain v
unfolding require_branch require_text
require_branch-IsPlain null h = refl
require_branch-IsPlain (text s) h = refl
require_branch-IsPlain _ h = cc

pub require_runtime-IsPlain : (v : Value) {u : Unit {0}} → require_runtime v ≡ ok u → IsPlain v
unfolding require_runtime
require_runtime-IsPlain (integer n) h = refl
require_runtime-IsPlain _ h = cc

pub paths-IsPlain :
    (vs : List Value) {ss : List String}
    → traverse require_relative_path vs ≡ ok ss
    → items_values (value_items vs) ≡ vs
unfolding traverse items_values value_items
paths-IsPlain [] h = refl
paths-IsPlain (v ∷ vs) h =
    let (s, es, h₁) = >>=-eq-ok (require_relative_path v) _ h in
    let (ss, ess, _) = >>=-eq-ok (traverse require_relative_path vs) _ h₁ in
    λ i. require_relative_path-IsPlain v es i ∷ paths-IsPlain vs ess i

pub policy_identifier-IsPlain :
    (name : String) (v : Value) {s : String} → P.require_identifier name v ≡ ok s → IsPlain v
unfolding P.require_identifier
policy_identifier-IsPlain name (text t) h = refl
policy_identifier-IsPlain name _ h = cc

policy_path-IsPlain : (v : Value) {s : String} → P.require_relative_path v ≡ ok s → IsPlain v
unfolding P.require_relative_path
policy_path-IsPlain (text t) h = refl
policy_path-IsPlain _ h = cc

nonnegative-IsPlain :
    (name : String) (v : Value) {n : ℤ} → P.require_nonnegative_int name v ≡ ok n → IsPlain v
unfolding P.require_nonnegative_int
nonnegative-IsPlain name (integer n) h = refl
nonnegative-IsPlain name _ h = cc

positive-IsPlain :
    (name : String) (v : Value) {n : ℤ} → P.require_positive_int name v ≡ ok n → IsPlain v
unfolding P.require_positive_int
positive-IsPlain name (integer n) h = refl
positive-IsPlain name _ h = cc

mode-IsPlain : (name : String) (v : Value) {n : ℤ} → P.require_mode name v ≡ ok n → IsPlain v
unfolding P.require_mode
mode-IsPlain name (integer (pos n)) h = refl
mode-IsPlain name _ h = cc

validate_before-IsPlain :
    (t : Target) {u : Unit {0}}
    → validate_before t ≡ ok u
    → IsPlain t.before_bytes × IsPlain t.before_sha256 × IsPlain t.before_mode
unfolding validate_before
validate_before-IsPlain t h = elim (Bool-cases (is_add t)) [
  | inl adds ↦
      let (bytes, rest) = &&-true _ _ (raise_if-ok _ _ (rw adds at h)) in
      let (digest, mode) = &&-true _ _ rest in
      (
        null-IsPlain (same_value-eq _ _ bytes),
        null-IsPlain (same_value-eq _ _ digest),
        null-IsPlain (same_value-eq _ _ mode),
      )
  | inr other ↦
      let h₀ = rw other at h in
      let (_, bytes, h₁) =
        >>=-eq-ok (P.require_nonnegative_int "before_bytes" t.before_bytes) _ h₀ in
      let (_, digest, h₂) = >>=-eq-ok (P.require_identifier "before_sha256" t.before_sha256) _ h₁ in
      let (_, mode, _) = >>=-eq-ok (P.require_mode "before_mode" t.before_mode) _ h₂ in
      (nonnegative-IsPlain _ _ bytes, policy_identifier-IsPlain _ _ digest, mode-IsPlain _ _ mode)
]

-- `operation` is one of the two names
operation-IsPlain : (t : Target) → not (is_add t || is_modify t) ≡ false → IsPlain t.operation
operation-IsPlain t h = elim (Bool-cases (is_add t)) [
  | inl adds ↦ text-IsPlain (same_value-eq _ _ adds)
  | inr other ↦ text-IsPlain (same_value-eq t.operation (text operation_modify) (ground arith))
]

pub target_from_wire_same :
    (t : Target) {u : Target}
    → validate_lab_worker_change_target t ≡ ok u
    → (record {
      operation = value_of_json (json_value t.operation);
      path = value_of_json (json_value t.path);
      max_final_bytes = value_of_json (json_value t.max_final_bytes);
      final_mode = value_of_json (json_value t.final_mode);
      before_bytes = value_of_json (json_value t.before_bytes);
      before_sha256 = value_of_json (json_value t.before_sha256);
      before_mode = value_of_json (json_value t.before_mode);
    })
      ≡ t
unfolding validate_lab_worker_change_target
target_from_wire_same t h =
    let (_, op, h₁) = >>=-eq-ok (raise_if (not (is_add t || is_modify t)) _) _ h in
    let (_, path, h₂) = >>=-eq-ok (P.require_relative_path t.path) _ h₁ in
    let (_, size, h₃) =
      >>=-eq-ok (P.require_positive_int "max_final_bytes" t.max_final_bytes) _ h₂ in
    let (_, mode, h₄) = >>=-eq-ok (P.require_mode "final_mode" t.final_mode) _ h₃ in
    let (_, before, _) = >>=-eq-ok (validate_before t) _ h₄ in
    let (bytes, digest, old_mode) = validate_before-IsPlain t before in
    λ i. record {
      operation = operation-IsPlain t (raise_unless _ _ op) i;
      path = policy_path-IsPlain t.path path i;
      max_final_bytes = positive-IsPlain "max_final_bytes" t.max_final_bytes size i;
      final_mode = mode-IsPlain "final_mode" t.final_mode mode i;
      before_bytes = bytes i;
      before_sha256 = digest i;
      before_mode = old_mode i;
    }
