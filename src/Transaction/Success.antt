-- ===== src/Transaction/Success.antt =====
-- When a transition succeeds, and what it returns
-- (`transition_lab_promotion_transaction` of lab_promotion_transaction_state.py).
use mathlib.Core.Path.{subst}
use mathlib.Core.Bool.{not}
use hands_free_auto_lab_port.Prelude.{
  ap, not, raise_if, true, String, ◌≡◌, refl, ◌↔◌, List, ok, >>=-eq-ok, raise_if-ok, sym, keys,
  same_set, eq_refl,
}
use hands_free_auto_lab_port.Checks.{Sha256, text}
use hands_free_auto_lab_port.Json.{Json}
use hands_free_auto_lab_port.Proposal.{identity}
use hands_free_auto_lab_port.Transaction.Types.{
  State, Progress, TransactionFile, Transaction, is_known_state, allowed_state_transition,
}
use hands_free_auto_lab_port.Transaction.Checks.{require_hex_identifier}
use hands_free_auto_lab_port.Transaction.Validate.{
  validate_state_invariants, validate_lab_promotion_transaction,
}
use hands_free_auto_lab_port.Transaction.Transition.{
  successor, successor_files, transition_lab_promotion_transaction,
}
use hands_free_auto_lab_port.Transaction.Facts.{paths, IsValid, IsValid-validate, validate-IsValid}
use hands_free_auto_lab_port.Transaction.Rules.{
  ◌⟶◌, allowed-⟶, ⟶-allowed, Updates, Holds, validate_state_invariants-Holds,
  Holds-validate_state_invariants,
}
use hands_free_auto_lab_port.Transaction.Updates.{
  Updates-plan, Updates-paths, Updates-derive_risk, Updates-transaction_identity_object,
  Updates-is_nil, Updates-traverse, successor_files-Updates, Updates-successor_files,
}

module _ (H : Sha256) where
  pub hex_of_identity :
      (name d : String) (value : Json)
      → require_hex_identifier name (text (identity H d value)) ≡ ok (identity H d value)
  unfolding require_hex_identifier identity
  hex_of_identity name d value = rw H.hexdigest-IsHex

  -- A successor passes every check that its predecessor passed.
  pub successor-IsValid :
      (t : Transaction) (s : State) (gs : List TransactionFile) {d : List (String × Progress)}
      → IsValid H t
      → Updates d t.files gs
      → Holds s gs
      → IsValid H (successor H t s gs)
  unfolding successor
  successor-IsValid t s gs v u h = record {
    component = v.component;
    schema_version = v.schema_version;
    transaction_id = v.transaction_id;
    snapshot_id = hex_of_identity _ _ _;
    proposal_id = v.proposal_id;
    candidate_id = v.candidate_id;
    run_id = v.run_id;
    repository_path = v.repository_path;
    repository_device = v.repository_device;
    repository_inode = v.repository_inode;
    branch = v.branch;
    head = v.head;
    some_file = rw (Updates-is_nil u) v.some_file;
    files = Updates-traverse H u v.files;
    sorted = rw (Updates-paths u) v.sorted;
    distinct_paths = rw (Updates-paths u) v.distinct_paths;
    risk = rw (Updates-derive_risk u) v.risk;
    binding = rw (Updates-plan u) v.binding;
    invariants = Holds-validate_state_invariants s gs h;
    transaction_binding =
        rw (Updates-derive_risk u, Updates-transaction_identity_object _ _ _ _ _ _ _ _ _ u)
          v.transaction_binding;
    snapshot_binding = eq_refl _;
  }

  -- The conditions under which `t` may go to `s` with the given progress, and the snapshot `u`
  -- that it then becomes.
  pub record Succeeds (t : Transaction) (s : State) (d : List (String × Progress)) (u : Transaction)
      : Type 0 where
    pub valid : IsValid H t
    pub step : t.state ⟶ s
    pub all_paths : same_set (keys d) (paths t.files) ≡ true
    pub updates : Updates d t.files u.files
    pub holds : Holds s u.files
    pub result : u ≡ successor H t s u.files

  pub state-Succeeds :
      {t : Transaction} {s : State} {d : List (String × Progress)} {u : Transaction}
      → Succeeds t s d u
      → u.state ≡ s
  unfolding successor
  state-Succeeds h = ap (λ (x : Transaction). x.state) h.result

  pub Succeeds-transition :
      (t : Transaction) (s : State) (d : List (String × Progress)) (u : Transaction)
      → Succeeds t s d u
      → transition_lab_promotion_transaction H t s d ≡ ok u
  unfolding transition_lab_promotion_transaction
  Succeeds-transition t s d u h =
      let next =
        IsValid-validate H (successor H t s u.files)
          (successor-IsValid t s u.files h.valid h.updates h.holds) in
      rw (IsValid-validate H t h.valid, h.holds.0, ⟶-allowed h.step, h.all_paths)
        (rw (Updates-successor_files d h.updates, Holds-validate_state_invariants s u.files h.holds)
          (cc (next, h.result)))

  pub transition-Succeeds :
      (t : Transaction) (s : State) (d : List (String × Progress)) (u : Transaction)
      → transition_lab_promotion_transaction H t s d ≡ ok u
      → Succeeds t s d u
  unfolding transition_lab_promotion_transaction successor
  transition-Succeeds t s d u h =
      let (c, ec, _) = >>=-eq-ok (validate_lab_promotion_transaction H t) _ h in
      let v = (validate-IsValid H t ec).1 in
      let h₀ = rw (IsValid-validate H t v) at h in
      let (_, _, h₁) = >>=-eq-ok (raise_if (not (is_known_state s)) _) _ h₀ in
      let (_, allowed, h₂) =
        >>=-eq-ok (raise_if (not (allowed_state_transition t.state s)) _) _ h₁ in
      let (_, same, h₃) = >>=-eq-ok (raise_if (not (same_set (keys d) (paths t.files))) _) _ h₂ in
      let (gs, eg, h₄) = >>=-eq-ok (successor_files d t.files) _ h₃ in
      let (_, inv, h₅) = >>=-eq-ok (validate_state_invariants s gs) _ h₄ in
      let result = (validate-IsValid H (successor H t s gs) h₅).0 in
      subst (λ x. Succeeds t s d x) (sym result)
        (record {
          valid = v;
          step = allowed-⟶ t.state s (raise_if-ok _ _ allowed);
          all_paths = raise_if-ok _ _ same;
          updates = successor_files-Updates d t.files eg;
          holds = validate_state_invariants-Holds s gs inv;
          result = refl;
        })

  -- A transition succeeds exactly under the conditions of `Succeeds`, and then returns the
  -- successor: the checks that are made anew on the successor never fail.
  pub transition_iff :
      (t : Transaction) (s : State) (d : List (String × Progress)) (u : Transaction)
      → (transition_lab_promotion_transaction H t s d ≡ ok u) ↔ Succeeds t s d u
  transition_iff t s d u = (transition-Succeeds t s d u, Succeeds-transition t s d u)
