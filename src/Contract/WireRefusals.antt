-- ===== src/Contract/WireRefusals.antt =====
-- What is raised on a wire value that is not a policy (lab_coding_integration_contract.py).
use hands_free_auto_lab_port.Prelude.{
  ◌∙◌, ap, >>=-eq-ok, refl, inr, inl, str_eq, raise_if-RaisesOnly, Bool-cases, not, ◌∷◌, ◌>>=◌,
  arith, err-RaisesOnly, ok, [], raise_if, true, bind-RaisesOnly, ok-RaisesOnly, err, ◌≡◌,
  contract_error, RaisesOnly, contains, List, Result, same_set, Error, String,
}
use hands_free_auto_lab_port.Contract.Wire.{
  policy_wire_fields, policy_target_wire_fields, rewrap, policy_from_wire, exact_object,
  targets_from_wire, target_from_wire, nonempty_list,
}
use hands_free_auto_lab_port.Json.{
  field_names, get_field, end, nil, field, item, Fields, Items, Json,
}
use hands_free_auto_lab_port.Policy.Accepted.{policy_same, all-contains}
use hands_free_auto_lab_port.Policy.Allowed.{&&-true}
use hands_free_auto_lab_port.Checks.{Sha256}
use hands_free_auto_lab_port.Policy.Validate.{validate_lab_worker_change_policy}
use hands_free_auto_lab_port.Policy.Types.{ChangePolicy}
use hands_free_auto_lab_port.Contract.Checks.{error}

pub get_field_present :
    (k : String) (fs : Fields)
    → contains k (field_names fs) ≡ true
    → RaisesOnly contract_error (get_field k fs)
unfolding get_field field_names contains
get_field_present k end h = cc
get_field_present k (field key value fs) h = elim (Bool-cases (str_eq k key)) [
  | inl same ↦ rw same (ok-RaisesOnly contract_error value)
  | inr other ↦ rw other (get_field_present k fs (rw other at h))
]

-- The fields of an object that was accepted are those of its schema.
pub exact_object_lem :
    (name : String) (schema : List String) (value : Json) {fs : Fields}
    → exact_object name schema value ≡ ok fs
    → same_set (field_names fs) schema ≡ true
unfolding exact_object
exact_object_lem name schema (Json.object gs) h = ground arith
exact_object_lem name schema _ h = cc

pub exact_object-RaisesOnly :
    (name : String) (schema : List String) (value : Json)
    → RaisesOnly contract_error (exact_object name schema value)
unfolding exact_object
exact_object-RaisesOnly name schema (Json.object gs) =
    bind-RaisesOnly contract_error (raise_if (not (same_set (field_names gs) schema)) _) _
      (raise_if-RaisesOnly _ _ _ _) (λ _ _. ok-RaisesOnly contract_error gs)
exact_object-RaisesOnly name schema _ = err-RaisesOnly contract_error _ _

-- A field of the schema is there.
pub get_field-RaisesOnly :
    (name : String) (schema : List String) (value : Json) {fs : Fields} (k : String)
    → exact_object name schema value ≡ ok fs
    → contains k schema ≡ true
    → RaisesOnly contract_error (get_field k fs)
unfolding same_set
get_field-RaisesOnly name schema value {fs} k h here =
    let (_, covers) = &&-true _ _ (exact_object_lem name schema value h) in
    get_field_present k fs (all-contains (λ y. contains y (field_names fs)) k schema covers here)

pub nonempty_list-RaisesOnly :
    (name : String) (value : Json) → RaisesOnly contract_error (nonempty_list name value)
unfolding nonempty_list
nonempty_list-RaisesOnly name (Json.array (item x xs)) = ok-RaisesOnly contract_error _
nonempty_list-RaisesOnly name _ = err-RaisesOnly contract_error _ _

-- The body reads the fields one after another: each of them is there.
module _ {ℓ} {A : Type ℓ} (name : String) (schema : List String) (value : Json) {fs : Fields}
    (is : exact_object name schema value ≡ ok fs) where
  pub read_field :
      (k : String) (rest : Json → Result A)
      → contains k schema ≡ true
      → ((v : Json) → RaisesOnly contract_error (rest v))
      → RaisesOnly contract_error (get_field k fs >>= rest)
  read_field k rest here next =
      bind-RaisesOnly contract_error (get_field k fs) rest
        (get_field-RaisesOnly name schema value k is here) (λ v _. next v)

pub target_from_wire-RaisesOnly :
    (value : Json) → RaisesOnly contract_error (target_from_wire value)
unfolding target_from_wire contains
target_from_wire-RaisesOnly value =
    let name : String = "change policy wire target" in
    bind-RaisesOnly contract_error (exact_object name policy_target_wire_fields value) _
      (exact_object-RaisesOnly name policy_target_wire_fields value)
      (λ fs is.
        let read = read_field name policy_target_wire_fields value is in
        read "operation" _ refl (λ operation. read "path" _ refl (λ path.
          read "max_final_bytes" _ refl (λ size. read "final_mode" _ refl (λ mode.
            read "before_bytes" _ refl (λ bytes. read "before_sha256" _ refl (λ digest.
              read "before_mode" _ refl (λ old_mode. ok-RaisesOnly contract_error _))))))))

pub targets_from_wire-RaisesOnly : (xs : Items) → RaisesOnly contract_error (targets_from_wire xs)
unfolding targets_from_wire
targets_from_wire-RaisesOnly nil = ok-RaisesOnly contract_error []
targets_from_wire-RaisesOnly (item x xs) =
    bind-RaisesOnly contract_error (target_from_wire x) _ (target_from_wire-RaisesOnly x) (λ t _.
      bind-RaisesOnly contract_error (targets_from_wire xs) _ (targets_from_wire-RaisesOnly xs)
        (λ ts _. ok-RaisesOnly contract_error (t ∷ ts)))

pub rewrap-RaisesOnly {ℓ} :
    {A : Type ℓ} (name message : String) (call : Result A)
    → RaisesOnly contract_error (rewrap (error name message) call)
rewrap-RaisesOnly name message (err exception) = err-RaisesOnly contract_error name message
rewrap-RaisesOnly name message (ok x) = ok-RaisesOnly contract_error x

pub rewrap_ok {ℓ} :
    {A : Type ℓ} (e : Error) (call : Result A) {x : A} → rewrap e call ≡ ok x → call ≡ ok x
rewrap_ok e (err exception) h = cc
rewrap_ok e (ok y) h = h

module _ (H : Sha256) where
  -- A policy that was received is valid.
  pub policy_from_wire_valid :
      (value : Json) {p : ChangePolicy}
      → policy_from_wire H value ≡ ok p
      → validate_lab_worker_change_policy H p ≡ ok p
  unfolding policy_from_wire
  policy_from_wire_valid value h =
      let (fs, _, h₁) =
        >>=-eq-ok (exact_object "change policy wire" policy_wire_fields value) _ h in
      let (listed, _, h₂) = >>=-eq-ok (get_field "targets" fs) _ h₁ in
      let (items, _, h₃) = >>=-eq-ok (nonempty_list "change policy wire targets" listed) _ h₂ in
      let (targets, _, h₄) = >>=-eq-ok (targets_from_wire items) _ h₃ in
      let (component, _, h₅) = >>=-eq-ok (get_field "component" fs) _ h₄ in
      let (version, _, h₆) = >>=-eq-ok (get_field "schema_version" fs) _ h₅ in
      let (id, _, h₇) = >>=-eq-ok (get_field "policy_id" fs) _ h₆ in
      let valid = rewrap_ok _ _ h₇ in
      ap (validate_lab_worker_change_policy H) (policy_same H _ valid) ∙ valid

  pub policy_from_wire-RaisesOnly :
      (value : Json) → RaisesOnly contract_error (policy_from_wire H value)
  unfolding policy_from_wire contains
  policy_from_wire-RaisesOnly value =
      let name : String = "change policy wire" in
      bind-RaisesOnly contract_error (exact_object name policy_wire_fields value) _
        (exact_object-RaisesOnly name policy_wire_fields value)
        (λ fs is.
          let read = read_field name policy_wire_fields value is in
          read "targets" _ refl (λ listed.
            bind-RaisesOnly contract_error (nonempty_list "change policy wire targets" listed) _
              (nonempty_list-RaisesOnly "change policy wire targets" listed)
              (λ items _.
                bind-RaisesOnly contract_error (targets_from_wire items) _
                  (targets_from_wire-RaisesOnly items)
                  (λ targets _. read "component" _ refl (λ component.
                    read "schema_version" _ refl
                      (λ version. read "policy_id" _ refl (λ id. rewrap-RaisesOnly _ _ _)))))))
