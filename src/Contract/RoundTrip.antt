-- ===== src/Contract/RoundTrip.antt =====
-- Records that are sent as wire values come back (lab_coding_integration_contract.py).
use hands_free_auto_lab_port.Prelude.{
  ok-injective, sym, ◌∙◌, ap, contains, all, same_set, >>=-eq-ok, ok, ◌≡◌,
}
use hands_free_auto_lab_port.Contract.Parts.{
  policy_round_trip, nonempty_paths, evidence_parts, validate_request_same, request_parts,
}
use hands_free_auto_lab_port.Contract.Plain.{integer-IsPlain, text-IsPlain}
use hands_free_auto_lab_port.Contract.Types.{Request}
use hands_free_auto_lab_port.Contract.Request.{
  request_wire, lab_coding_integration_request_from_wire, lab_coding_integration_request_to_wire,
  validate_lab_coding_integration_request,
}
use hands_free_auto_lab_port.Checks.{Sha256}
use hands_free_auto_lab_port.Contract.Wire.{policy_to_wire, exact_object, policy_wire}
use hands_free_auto_lab_port.Json.{get_field, field_names, Json}
use hands_free_auto_lab_port.Policy.Accepted.{policy_same}
use hands_free_auto_lab_port.Policy.Validate.{validate_lab_worker_change_policy}

module _ (H : Sha256) where
  request_wire_accepted :
      (r : Request)
      → validate_lab_coding_integration_request H r ≡ ok r
      → lab_coding_integration_request_from_wire H (request_wire r (policy_wire r.change_policy))
        ≡ ok r
  unfolding lab_coding_integration_request_from_wire request_wire exact_object same_set field_names
      all contains get_field
  request_wire_accepted r h =
      let parts = request_parts H r h in
      let e = evidence_parts H r parts.evidence in
      rw
        (
          nonempty_paths "request wire relative_paths" r.relative_paths e.nonempty,
          policy_round_trip H r.change_policy e.change_policy,
        )
        (ap (validate_lab_coding_integration_request H) (λ i. record {
          component = text-IsPlain parts.component i;
          schema_version = integer-IsPlain parts.schema_version i;
          request_id = text-IsPlain parts.request_id i;
          repository_path = e.repository_path i;
          commit_oid = e.commit_oid i;
          expected_branch = e.expected_branch i;
          relative_paths = e.relative_paths i;
          goal = e.goal i;
          change_policy = r.change_policy;
          max_runtime_seconds = e.max_runtime_seconds i;
        })
          ∙ h)

  -- What `to_wire` returns is the wire value of a request that is valid.
  request_wire_is :
      (r : Request) {wire : Json}
      → lab_coding_integration_request_to_wire H r ≡ ok wire
      → (validate_lab_coding_integration_request H r ≡ ok r)
        × (request_wire r (policy_wire r.change_policy) ≡ wire)
  unfolding lab_coding_integration_request_to_wire policy_to_wire
  request_wire_is r h =
      let (trusted, valid, h₁) = >>=-eq-ok (validate_lab_coding_integration_request H r) _ h in
      let same = validate_request_same H r valid in
      let (policy, sent, h₂) = >>=-eq-ok (policy_to_wire H trusted.change_policy) _ h₁ in
      let (p, accepted, h₃) =
        >>=-eq-ok (validate_lab_worker_change_policy H trusted.change_policy) _ sent in
      let policy_is = policy_same H trusted.change_policy accepted in
      (
        valid ∙ ap ok same,
        ap (λ (x : Request). request_wire x (policy_wire x.change_policy)) (sym same)
            ∙ ap (λ x. request_wire trusted (policy_wire x)) (sym policy_is)
            ∙ ap (request_wire trusted) (ok-injective h₃)
            ∙ ok-injective h₂,
      )

  -- A request that is sent comes back: the wire value of a request that is valid is accepted, and
  -- gives this very request.
  pub request_round_trip :
      (r : Request) {wire : Json}
      → lab_coding_integration_request_to_wire H r ≡ ok wire
      → lab_coding_integration_request_from_wire H wire ≡ ok r
  request_round_trip r h =
      let (valid, wire_is) = request_wire_is r h in
      ap (lab_coding_integration_request_from_wire H) (sym wire_is) ∙ request_wire_accepted r valid
