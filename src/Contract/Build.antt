-- ===== src/Contract/Build.antt =====
-- Requests and results that are built (lab_coding_integration_contract.py).
use hands_free_auto_lab_port.Prelude.{
  eq_refl, ◌∙◌, ap, refl, String, true, >>=-eq-ok, sym, ◌↔◌, ok, ◌≡◌,
}
use hands_free_auto_lab_port.Proposal.{identity}
use hands_free_auto_lab_port.Contract.Parts.{
  evidence_parts, request_parts, validate_request_same, RequestParts,
}
use hands_free_auto_lab_port.Contract.Types.{
  Outcome, request_schema_version, request_component, Request,
}
use hands_free_auto_lab_port.Contract.Request.{
  provisional_id, request_object, validate_lab_coding_integration_request, has_object,
  request_identity, build_lab_coding_integration_request, request_of,
}
use hands_free_auto_lab_port.Checks.{integer, same_value, Value, is_hex, text, text_of, Sha256}
use hands_free_auto_lab_port.Policy.Validate.{validate_lab_worker_change_policy}
use hands_free_auto_lab_port.Contract.Outcome.{
  result_object, result_identity, result_of, validate_lab_coding_integration_result,
  build_lab_coding_integration_result,
}
use hands_free_auto_lab_port.Contract.Checks.{require_identifier}
use hands_free_auto_lab_port.Queue.Types.{RequestContract}

module _ (H : Sha256) where
  -- The identity does not depend on the identifier that a request carries.
  request_identity_of :
      (id : Value) (r : Request)
      → r.component ≡ text request_component
      → r.schema_version ≡ integer request_schema_version
      → request_identity H (
          request_of id r.repository_path r.commit_oid r.expected_branch r.relative_paths r.goal
            r.change_policy r.max_runtime_seconds)
        ≡ request_identity H r
  unfolding request_identity request_of has_object request_object
  request_identity_of id r component version = rw (component, version) refl

  request_of_parts :
      (r : Request) (p : RequestParts H r)
      → request_of
          (text p.id)
          r.repository_path
          r.commit_oid
          r.expected_branch
          r.relative_paths
          r.goal
          r.change_policy
          r.max_runtime_seconds
        ≡ r
  unfolding request_of
  request_of_parts r p = λ i. record {
    component = sym p.component i;
    schema_version = sym p.schema_version i;
    request_id = sym p.request_id i;
    repository_path = r.repository_path;
    commit_oid = r.commit_oid;
    expected_branch = r.expected_branch;
    relative_paths = r.relative_paths;
    goal = r.goal;
    change_policy = r.change_policy;
    max_runtime_seconds = r.max_runtime_seconds;
  }

  -- A request is valid if and only if it is what is built from its evidence, so that its identifier
  -- depends on its evidence alone.
  pub request_build_iff :
      (r : Request)
      → (build_lab_coding_integration_request H r.repository_path r.commit_oid r.expected_branch
            r.relative_paths r.goal r.change_policy r.max_runtime_seconds
          ≡ ok r)
        ↔ (validate_lab_coding_integration_request H r ≡ ok r)
  unfolding build_lab_coding_integration_request
  request_build_iff r = (
    λ h.
        let (p, _, h₁) = >>=-eq-ok (validate_lab_worker_change_policy H r.change_policy) _ h in
        let (id, _, h₂) =
          >>=-eq-ok
            (request_identity H (
              request_of provisional_id r.repository_path r.commit_oid r.expected_branch
                r.relative_paths r.goal p r.max_runtime_seconds))
            _ h₁ in
        ap (validate_lab_coding_integration_request H) (validate_request_same H _ h₂) ∙ h₂,
    λ h.
        let parts = request_parts H r h in
        let e = evidence_parts H r parts.evidence in
        rw
          (
            e.change_policy,
            request_identity_of provisional_id r parts.component parts.schema_version
                ∙ parts.identity_is,
          )
          (ap (validate_lab_coding_integration_request H) (request_of_parts r parts) ∙ h),
  )

  pub validate_request-IsHex :
      (r : Request) {q : Request}
      → validate_lab_coding_integration_request H r ≡ ok q
      → is_hex 64 (text_of r.request_id) ≡ true
  validate_request-IsHex r h = let parts = request_parts H r h in rw parts.request_id parts.id-IsHex

  -- The requests that jobs and queues are made of.
  abbrev pub coding_requests : RequestContract
  coding_requests = record {
    Request = Request;
    request_id = λ r. text_of r.request_id;
    validate = validate_lab_coding_integration_request H;
    validate_same = validate_request_same H;
    validate-IsHex = validate_request-IsHex;
  }

  result_identity-IsHex : (r : Outcome) → is_hex 64 (result_identity H r) ≡ true
  unfolding result_identity identity
  result_identity-IsHex r = H.hexdigest-IsHex _

  -- A result whose identifiers have their form is valid when it bears its own identity.
  valid_result :
      (request candidate own : String)
      → is_hex 64 request ≡ true
      → is_hex 64 candidate ≡ true
      → result_identity H (result_of provisional_id (text request) (text candidate)) ≡ own
      → validate_lab_coding_integration_result H
          (result_of (text own) (text request) (text candidate))
        ≡ ok (result_of (text own) (text request) (text candidate))
  unfolding validate_lab_coding_integration_result require_identifier result_of same_value
      result_identity result_object
  valid_result request candidate own h₁ h₂ own_is =
      rw
        (
          sym (ap (is_hex 64) own_is)
              ∙ result_identity-IsHex (result_of provisional_id (text request) (text candidate)),
          h₁,
          h₂,
          own_is,
          eq_refl own,
        )
        refl

  -- A result is built of every request that is valid and every identifier of a candidate; it is
  -- valid, and names the two.
  pub result_build_total :
      (r : Request) (candidate : String) {q : Request}
      → validate_lab_coding_integration_request H r ≡ ok q
      → is_hex 64 candidate ≡ true
      → (result : Outcome) × (build_lab_coding_integration_result H r (text candidate) ≡ ok result)
        × (validate_lab_coding_integration_result H result ≡ ok result)
        × (result.request_id ≡ r.request_id)
        × (result.candidate_id ≡ text candidate)
  unfolding build_lab_coding_integration_result require_identifier result_of
  result_build_total r candidate h hex =
      let parts = request_parts H r h in
      let own = result_identity H (result_of provisional_id (text parts.id) (text candidate)) in
      let valid = valid_result parts.id candidate own parts.id-IsHex hex refl in
      (
        result_of (text own) (text parts.id) (text candidate),
        rw (h ∙ ap ok (validate_request_same H r h), hex, parts.request_id) valid,
        valid,
        sym parts.request_id,
        refl,
      )
