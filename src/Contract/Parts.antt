-- ===== src/Contract/Parts.antt =====
-- What the validations have checked, as far as wire values go (lab_coding_integration_contract.py).
use hands_free_auto_lab_port.Prelude.{
  eq_iff, sym, str_eq, true, arith, raise_unless, raise_if-ok, ◌∙◌, refl, ap, contains, all, not,
  raise_if, same_set, >>=-eq-ok, false, is_nil, ok, ◌≡◌, String, traverse, List, [], ◌∷◌,
}
use hands_free_auto_lab_port.Contract.Plain.{
  require_runtime-IsPlain, require_text_text, paths-IsPlain, require_branch-IsPlain,
  require_absolute_path-IsPlain, require_identifier_text, policy_identifier-IsPlain,
  integer-IsPlain, text-IsPlain, target_from_wire_same, IsPlain,
}
use hands_free_auto_lab_port.Contract.Checks.{
  require_relative_path, require_text, require_branch, require_identifier, require_absolute_path,
  error,
}
use hands_free_auto_lab_port.Contract.Types.{
  max_integration_goal_bytes, request_schema_version, request_component, Request,
}
use hands_free_auto_lab_port.Contract.Request.{
  request_identity, items_values, check_paths, check_evidence,
  validate_lab_coding_integration_request, value_items,
}
use hands_free_auto_lab_port.Checks.{is_hex, integer, text, same_value, Value, Sha256}
use hands_free_auto_lab_port.Contract.Wire.{
  rewrap, exact_object, policy_wire, target_from_wire, policy_from_wire, targets_from_wire,
  nonempty_list,
}
use hands_free_auto_lab_port.Json.{get_field, field_names, Json}
use hands_free_auto_lab_port.Policy.Accepted.{policy_same}
use hands_free_auto_lab_port.Policy.Allowed.{same_value-eq}
use hands_free_auto_lab_port.Policy.Types.{
  change_policy_schema_version, change_policy_component, Target, ChangePolicy,
}
use hands_free_auto_lab_port.Policy.Validate.{
  validate_lab_worker_change_target, validate_lab_worker_change_policy, target_objects,
}
use hands_free_auto_lab_port.Policy.Checks as P

pub targets_round_trip :
    (ts : List Target) {us : List Target}
    → traverse validate_lab_worker_change_target ts ≡ ok us
    → targets_from_wire (target_objects ts) ≡ ok ts
unfolding traverse targets_from_wire target_objects target_from_wire exact_object same_set
    field_names all contains get_field
targets_round_trip [] h = refl
targets_round_trip (t ∷ ts) h =
    let (u, eu, h₁) = >>=-eq-ok (validate_lab_worker_change_target t) _ h in
    let (us, eus, _) = >>=-eq-ok (traverse validate_lab_worker_change_target ts) _ h₁ in
    rw (targets_round_trip ts eus) (λ i. ok (target_from_wire_same t eu i ∷ ts))

pub nonempty_targets :
    (name : String) (ts : List Target)
    → is_nil ts ≡ false
    → nonempty_list name (Json.array (target_objects ts)) ≡ ok (target_objects ts)
unfolding nonempty_list target_objects
nonempty_targets name [] h = cc
nonempty_targets name (t ∷ ts) h = refl

pub nonempty_paths :
    (name : String) (vs : List Value)
    → is_nil vs ≡ false
    → nonempty_list name (Json.array (value_items vs)) ≡ ok (value_items vs)
unfolding nonempty_list value_items
nonempty_paths name [] h = cc
nonempty_paths name (v ∷ vs) h = refl

module _ (H : Sha256) where
  -- What the validation of a policy has checked, as far as its wire value goes.
  record PolicyParts (p : ChangePolicy) : Type 0 where
    component : IsPlain p.component
    schema_version : IsPlain p.schema_version
    policy_id : IsPlain p.policy_id
    nonempty : is_nil p.targets ≡ false
    targets : targets_from_wire (target_objects p.targets) ≡ ok p.targets

  policy_parts :
      (p : ChangePolicy) {q : ChangePolicy}
      → validate_lab_worker_change_policy H p ≡ ok q
      → PolicyParts p
  unfolding validate_lab_worker_change_policy
  policy_parts p h =
      let (_, component, h₁) =
        >>=-eq-ok (raise_if (not (same_value p.component (text change_policy_component))) _) _ h in
      let (_, version, h₂) =
        >>=-eq-ok
          (raise_if (not (same_value p.schema_version (integer change_policy_schema_version))) _) _
          h₁ in
      let (_, id, h₃) = >>=-eq-ok (P.require_identifier "policy_id" p.policy_id) _ h₂ in
      let (_, nonempty, h₄) = >>=-eq-ok (raise_if (is_nil p.targets) _) _ h₃ in
      let (_, targets, _) = >>=-eq-ok (traverse validate_lab_worker_change_target p.targets) _ h₄ in
      record {
        component = text-IsPlain (same_value-eq _ _ (raise_if-ok _ _ component));
        schema_version = integer-IsPlain (same_value-eq _ _ (raise_if-ok _ _ version));
        policy_id = policy_identifier-IsPlain "policy_id" p.policy_id id;
        nonempty = raise_unless _ _ nonempty;
        targets = targets_round_trip p.targets targets;
      }

  pub policy_round_trip :
      (p : ChangePolicy)
      → validate_lab_worker_change_policy H p ≡ ok p
      → policy_from_wire H (policy_wire p) ≡ ok p
  unfolding policy_from_wire policy_wire exact_object same_set field_names all contains get_field
  policy_round_trip p h =
      let parts = policy_parts p h in
      rw (nonempty_targets "change policy wire targets" p.targets parts.nonempty, parts.targets)
        (ap
            (λ (x : ChangePolicy).
              rewrap (error "" "change policy wire evidence is invalid")
                (validate_lab_worker_change_policy H x))
            (λ i. record {
              component = parts.component i;
              schema_version = parts.schema_version i;
              policy_id = parts.policy_id i;
              targets = p.targets;
            })
          ∙ ap (rewrap _) h)

  -- What the validation of a request has checked.
  pub record RequestParts (r : Request) : Type 0 where
    pub component : r.component ≡ text request_component
    pub schema_version : r.schema_version ≡ integer request_schema_version
    pub id : String
    pub request_id : r.request_id ≡ text id
    pub id-IsHex : is_hex 64 id ≡ true
    pub evidence : check_evidence H r ≡ ok tt
    pub identity_is : request_identity H r ≡ ok id

  pub request_parts :
      (r : Request) {q : Request}
      → validate_lab_coding_integration_request H r ≡ ok q
      → RequestParts r
  unfolding validate_lab_coding_integration_request
  request_parts r h =
      let (_, component, h₁) =
        >>=-eq-ok (raise_if (not (same_value r.component (text request_component))) _) _ h in
      let (_, version, h₂) =
        >>=-eq-ok (raise_if (not (same_value r.schema_version (integer request_schema_version))) _)
          _ h₁ in
      let (supplied, id, h₃) = >>=-eq-ok (require_identifier "request_id" 64 r.request_id) _ h₂ in
      let (_, evidence, h₄) = >>=-eq-ok (check_evidence H r) _ h₃ in
      let (own, identity_is, h₅) = >>=-eq-ok (request_identity H r) _ h₄ in
      let (_, same, _) = >>=-eq-ok (raise_if (not (str_eq supplied own)) _) _ h₅ in
      let (id_text, hex) = require_identifier_text "request_id" 64 r.request_id id in
      record {
        component = same_value-eq _ _ (raise_if-ok _ _ component);
        schema_version = same_value-eq _ _ (raise_if-ok _ _ version);
        id = supplied;
        request_id = id_text;
        id-IsHex = hex;
        evidence = evidence;
        identity_is = identity_is ∙ ap ok (sym ((eq_iff supplied own).0 (raise_if-ok _ _ same)));
      }

  -- What the checks on the evidence of a request say of its wire value.
  pub record EvidenceParts (r : Request) : Type 0 where
    pub repository_path : IsPlain r.repository_path
    pub commit_oid : IsPlain r.commit_oid
    pub expected_branch : IsPlain r.expected_branch
    pub nonempty : is_nil r.relative_paths ≡ false
    pub relative_paths : items_values (value_items r.relative_paths) ≡ r.relative_paths
    pub goal : IsPlain r.goal
    pub change_policy : validate_lab_worker_change_policy H r.change_policy ≡ ok r.change_policy
    pub max_runtime_seconds : IsPlain r.max_runtime_seconds

  pub evidence_parts : (r : Request) → check_evidence H r ≡ ok tt → EvidenceParts r
  unfolding check_evidence check_paths
  evidence_parts r h =
      let (_, path, h₁) =
        >>=-eq-ok (require_absolute_path "repository_path" r.repository_path) _ h in
      let (_, oid, h₂) = >>=-eq-ok (require_identifier "commit_oid" 40 r.commit_oid) _ h₁ in
      let (_, branch, h₃) = >>=-eq-ok (require_branch r.expected_branch) _ h₂ in
      let (_, paths, h₄) = >>=-eq-ok (check_paths r.relative_paths) _ h₃ in
      let (_, goal, h₅) = >>=-eq-ok (require_text "goal" max_integration_goal_bytes r.goal) _ h₄ in
      let (policy, valid, h₆) =
        >>=-eq-ok (validate_lab_worker_change_policy H r.change_policy) _ h₅ in
      let (_, nonempty, p₁) = >>=-eq-ok (raise_if (is_nil r.relative_paths) _) _ paths in
      let (_, each, _) = >>=-eq-ok (traverse require_relative_path r.relative_paths) _ p₁ in
      record {
        repository_path = require_absolute_path-IsPlain "repository_path" r.repository_path path;
        commit_oid = text-IsPlain (require_identifier_text "commit_oid" 40 r.commit_oid oid).0;
        expected_branch = require_branch-IsPlain r.expected_branch branch;
        nonempty = raise_unless _ _ nonempty;
        relative_paths = paths-IsPlain r.relative_paths each;
        goal = text-IsPlain (require_text_text "goal" max_integration_goal_bytes r.goal goal);
        change_policy = valid ∙ ap ok (policy_same H r.change_policy valid);
        max_runtime_seconds = require_runtime-IsPlain r.max_runtime_seconds h₆;
      }

  pub validate_request_same :
      (r : Request) {q : Request} → validate_lab_coding_integration_request H r ≡ ok q → q ≡ r
  unfolding validate_lab_coding_integration_request
  validate_request_same r h = ground arith
