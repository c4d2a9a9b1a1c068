-- ===== src/Contract/Refusals.antt =====
-- What is raised on a wire value that is refused (lab_coding_integration_contract.py).
use hands_free_auto_lab_port.Prelude.{
  raise_if-ok, error_class, encode, length, ltb, contains_code, is_sorted, is_space, all_codes,
  false, ◌||◌, traverse-RaisesOnly, traverse, codes, is_nil, ℕ, ErrorClass, refl, any, str_eq,
  raise_if-RaisesOnly, not, ◌∷◌, err-RaisesOnly, ok, [], raise_if, bind-RaisesOnly, ok-RaisesOnly,
  err, ◌≡◌, contract_error, RaisesOnly, contains, List, Result, Error, String,
}
use hands_free_auto_lab_port.Contract.WireRefusals.{
  policy_from_wire_valid, policy_from_wire-RaisesOnly, nonempty_list-RaisesOnly, read_field,
  exact_object-RaisesOnly,
}
use hands_free_auto_lab_port.Contract.Parts.{evidence_parts, EvidenceParts}
use hands_free_auto_lab_port.Contract.Wire.{
  policy_wire, policy_to_wire, policy_from_wire, exact_object, nonempty_list,
}
use hands_free_auto_lab_port.Contract.Request.{
  request_object, request_wire_fields, lab_coding_integration_request_from_wire,
  validate_lab_coding_integration_request, has_object, check_evidence, request_identity,
  value_items, items_values, check_paths,
}
use hands_free_auto_lab_port.Contract.Types.{
  request_id_domain, request_schema_version, request_component, max_integration_goal_bytes, Request,
}
use hands_free_auto_lab_port.Proposal.{identity}
use hands_free_auto_lab_port.Policy.Allowed.{same_value-eq}
use hands_free_auto_lab_port.Checks.{
  same_value, object, is_hex, text, is_object, integer, null, Value, Sha256,
}
use hands_free_auto_lab_port.Policy.Validate.{validate_lab_worker_change_policy}
use hands_free_auto_lab_port.Paths.{is_git_path, is_canonical_absolute, is_canonical}
use hands_free_auto_lab_port.Contract.Plain.{IsPlain}
use hands_free_auto_lab_port.Contract.Checks.{
  require_identifier, require_absolute_path, require_runtime, require_branch, require_relative_path,
  require_text,
}
use hands_free_auto_lab_port.Json.{Json}

is_object-IsPlain : (v : Value) → IsPlain v → is_object v ≡ false
is_object-IsPlain object h = cc
is_object-IsPlain _ h = refl

any-is_object-IsPlain :
    (vs : List Value) → items_values (value_items vs) ≡ vs → any is_object vs ≡ false
unfolding any items_values value_items
any-is_object-IsPlain [] h = refl
any-is_object-IsPlain (object ∷ vs) h = cc
any-is_object-IsPlain (v ∷ vs) h = any-is_object-IsPlain vs (cc)

known-RaisesOnly {ℓ} :
    {A : Type ℓ} (c : ErrorClass) (call : Result A) {x : A} → call ≡ ok x → RaisesOnly c call
known-RaisesOnly c call h e h' = cc

require_identifier-RaisesOnly :
    (name : String) (size : ℕ) (v : Value)
    → RaisesOnly contract_error (require_identifier name size v)
unfolding require_identifier
require_identifier-RaisesOnly name size (text s) =
    bind-RaisesOnly contract_error (raise_if (not (is_hex size s)) _) _
      (raise_if-RaisesOnly _ _ _ _) (λ _ _. ok-RaisesOnly contract_error s)
require_identifier-RaisesOnly name size _ = err-RaisesOnly contract_error _ _

require_text-RaisesOnly :
    (name : String) (limit : ℕ) (v : Value) → RaisesOnly contract_error (require_text name limit v)
unfolding require_text
require_text-RaisesOnly name limit (text s) =
    bind-RaisesOnly contract_error
      (raise_if (all_codes is_space (codes s) || contains_code 0 (codes s)) _) _
      (raise_if-RaisesOnly _ _ _ _)
      (λ _ _.
        bind-RaisesOnly contract_error (raise_if (ltb limit (length (encode s))) _) _
          (raise_if-RaisesOnly _ _ _ _) (λ _ _. ok-RaisesOnly contract_error s))
require_text-RaisesOnly name limit _ = err-RaisesOnly contract_error _ _

require_absolute_path-RaisesOnly :
    (name : String) (v : Value) → RaisesOnly contract_error (require_absolute_path name v)
unfolding require_absolute_path
require_absolute_path-RaisesOnly name v =
    bind-RaisesOnly contract_error (require_text name 4096 v) _
      (require_text-RaisesOnly name 4096 v)
      (λ s _.
        bind-RaisesOnly contract_error (raise_if (not (is_canonical_absolute (codes s))) _) _
          (raise_if-RaisesOnly _ _ _ _) (λ _ _. ok-RaisesOnly contract_error s))

require_relative_path-RaisesOnly : (v : Value) → RaisesOnly contract_error (require_relative_path v)
unfolding require_relative_path
require_relative_path-RaisesOnly v =
    bind-RaisesOnly contract_error (require_text "relative path" 4096 v) _
      (require_text-RaisesOnly "relative path" 4096 v)
      (λ s _.
        bind-RaisesOnly contract_error
          (raise_if (not (is_canonical (codes s)) || is_git_path (codes s)) _) _
          (raise_if-RaisesOnly _ _ _ _) (λ _ _. ok-RaisesOnly contract_error s))

require_branch-RaisesOnly : (v : Value) → RaisesOnly contract_error (require_branch v)
unfolding require_branch
require_branch-RaisesOnly null = ok-RaisesOnly contract_error tt
require_branch-RaisesOnly v =
    bind-RaisesOnly contract_error (require_text "expected_branch" 1024 v) _
      (require_text-RaisesOnly "expected_branch" 1024 v) (λ _ _. ok-RaisesOnly contract_error tt)

require_runtime-RaisesOnly : (v : Value) → RaisesOnly contract_error (require_runtime v)
unfolding require_runtime
require_runtime-RaisesOnly (integer n) = raise_if-RaisesOnly _ _ _ _
require_runtime-RaisesOnly _ = err-RaisesOnly contract_error _ _

check_paths-RaisesOnly : (vs : List Value) → RaisesOnly contract_error (check_paths vs)
unfolding check_paths
check_paths-RaisesOnly vs =
    bind-RaisesOnly contract_error (raise_if (is_nil vs) _) _ (raise_if-RaisesOnly _ _ _ _) (λ _ _.
      bind-RaisesOnly contract_error (traverse require_relative_path vs) _
        (traverse-RaisesOnly contract_error require_relative_path require_relative_path-RaisesOnly
          vs)
        (λ paths _.
          bind-RaisesOnly contract_error (raise_if (not (is_sorted paths)) _) _
            (raise_if-RaisesOnly _ _ _ _) (λ _ _. raise_if-RaisesOnly _ _ _ _)))

module _ (H : Sha256) where
  -- The remaining checks meet a policy that is valid.
  check_evidence-RaisesOnly :
      (r : Request)
      → validate_lab_worker_change_policy H r.change_policy ≡ ok r.change_policy
      → RaisesOnly contract_error (check_evidence H r)
  unfolding check_evidence
  check_evidence-RaisesOnly r valid =
      bind-RaisesOnly contract_error (require_absolute_path "repository_path" r.repository_path) _
        (require_absolute_path-RaisesOnly _ _)
        (λ _ _.
          bind-RaisesOnly contract_error (require_identifier "commit_oid" 40 r.commit_oid) _
            (require_identifier-RaisesOnly _ _ _)
            (λ _ _.
              bind-RaisesOnly contract_error (require_branch r.expected_branch) _
                (require_branch-RaisesOnly _)
                (λ _ _.
                  bind-RaisesOnly contract_error (check_paths r.relative_paths) _
                    (check_paths-RaisesOnly _)
                    (λ _ _.
                      bind-RaisesOnly contract_error
                        (require_text "goal" max_integration_goal_bytes r.goal) _
                        (require_text-RaisesOnly _ _ _)
                        (λ _ _.
                          bind-RaisesOnly contract_error
                            (validate_lab_worker_change_policy H r.change_policy) _
                            (known-RaisesOnly contract_error
                              (validate_lab_worker_change_policy H r.change_policy) valid)
                            (λ _ _. require_runtime-RaisesOnly r.max_runtime_seconds))))))

  -- The identity of a request whose fields were accepted is computed.
  has_object-false :
      (r : Request)
      → r.component ≡ text request_component
      → r.schema_version ≡ integer request_schema_version
      → EvidenceParts H r
      → has_object r ≡ false
  unfolding has_object any
  has_object-false r component version e =
      rw
        (
          component,
          version,
          is_object-IsPlain r.repository_path e.repository_path,
          is_object-IsPlain r.commit_oid e.commit_oid,
          is_object-IsPlain r.expected_branch e.expected_branch,
          is_object-IsPlain r.goal e.goal,
          is_object-IsPlain r.max_runtime_seconds e.max_runtime_seconds,
          any-is_object-IsPlain r.relative_paths e.relative_paths,
        )
        refl

  request_identity_ok :
      (r : Request)
      → r.component ≡ text request_component
      → r.schema_version ≡ integer request_schema_version
      → check_evidence H r ≡ ok tt
      → request_identity H r
        ≡ ok (identity H request_id_domain (request_object r (policy_wire r.change_policy)))
  unfolding request_identity policy_to_wire
  request_identity_ok r component version h =
      let e = evidence_parts H r h in
      rw (e.change_policy, has_object-false r component version e) refl

  validate_request-RaisesOnly :
      (r : Request)
      → validate_lab_worker_change_policy H r.change_policy ≡ ok r.change_policy
      → RaisesOnly contract_error (validate_lab_coding_integration_request H r)
  unfolding validate_lab_coding_integration_request
  validate_request-RaisesOnly r valid =
      bind-RaisesOnly contract_error
        (raise_if (not (same_value r.component (text request_component))) _) _
        (raise_if-RaisesOnly _ _ _ _)
        (λ _ component.
          bind-RaisesOnly contract_error
            (raise_if (not (same_value r.schema_version (integer request_schema_version))) _) _
            (raise_if-RaisesOnly _ _ _ _)
            (λ _ version.
              bind-RaisesOnly contract_error (require_identifier "request_id" 64 r.request_id) _
                (require_identifier-RaisesOnly _ _ _)
                (λ supplied _.
                  bind-RaisesOnly contract_error (check_evidence H r) _
                    (check_evidence-RaisesOnly r valid)
                    (λ _ evidence.
                      bind-RaisesOnly contract_error (request_identity H r) _
                        (known-RaisesOnly contract_error (request_identity H r) (
                          request_identity_ok r (same_value-eq _ _ (raise_if-ok _ _ component))
                            (same_value-eq _ _ (raise_if-ok _ _ version)) evidence))
                        (λ own _.
                          bind-RaisesOnly contract_error (raise_if (not (str_eq supplied own)) _) _
                            (raise_if-RaisesOnly _ _ _ _)
                            (λ _ _. ok-RaisesOnly contract_error r))))))

  -- A JSON value that is not accepted as a request is refused with the error of the contract, and
  -- with no other.
  pub request_wire_errors :
      (value : Json) (e : Error)
      → lab_coding_integration_request_from_wire H value ≡ err e
      → error_class e ≡ contract_error
  unfolding lab_coding_integration_request_from_wire contains
  request_wire_errors value =
      let name : String = "request wire" in
      bind-RaisesOnly contract_error (exact_object name request_wire_fields value) _
        (exact_object-RaisesOnly name request_wire_fields value)
        (λ fs is.
          let read = read_field name request_wire_fields value is in
          read "relative_paths" _ refl (λ listed.
            bind-RaisesOnly contract_error (nonempty_list "request wire relative_paths" listed) _
              (nonempty_list-RaisesOnly "request wire relative_paths" listed)
              (λ paths _. read "component" _ refl (λ component.
                read "schema_version" _ refl (λ version. read "request_id" _ refl (λ id.
                  read "repository_path" _ refl (λ path. read "commit_oid" _ refl (λ oid.
                    read "expected_branch" _ refl (λ branch. read "goal" _ refl (λ goal.
                      read "change_policy" _ refl (λ sent.
                        bind-RaisesOnly contract_error (policy_from_wire H sent) _
                          (policy_from_wire-RaisesOnly H sent)
                          (λ policy received. read "max_runtime_seconds" _ refl (λ seconds.
                            validate_request-RaisesOnly _
                              (policy_from_wire_valid H sent received))))))))))))))
