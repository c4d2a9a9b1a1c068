-- ===== src/Policy/Accepted.antt =====
-- What a policy that accepts a difference says of each path (lab_worker_change_policy.py).
use mathlib.Core.Option.{some-injective}
use mathlib.Core.Path.{subst}
use hands_free_auto_lab_port.Prelude.{
  all, Option-cases, same_set, for_each, str_eq, Bool-cases, ◌||◌, All, contains, lookup, map,
  raise_unless, ◌&&◌, String, ◌≡◌, ◌≢◌, sym, ap, ◌∙◌, ◌⊎◌, inl, inr, Bool, true, false, not, some,
  List, [], ◌∷◌, ok, arith, >>=-eq-ok, ok-injective, raise_if, eq_iff,
}
use hands_free_auto_lab_port.Policy.Allowed.{IsAllowed, check_change-IsAllowed}
use hands_free_auto_lab_port.Snapshot.Changes.{
  validate_snapshot_same, diff-IsChange, patch-diff, changes_by_path,
}
use hands_free_auto_lab_port.Checks.{text_of, Sha256}
use hands_free_auto_lab_port.Snapshot.Diff.{by_path, diff_lab_workspace_snapshots}
use hands_free_auto_lab_port.Policy.Validate.{target_paths, validate_lab_worker_change_policy}
use hands_free_auto_lab_port.Policy.Evidence.{
  same_diff, check_target_before, validate_lab_worker_change_policy_before,
  validate_lab_worker_change_policy_diff, targets_by_path, get_target, check_changes, check_change,
}
use hands_free_auto_lab_port.Snapshot.Validate.{validate_lab_workspace_snapshot}
use hands_free_auto_lab_port.Snapshot.Types.{Diff, Snapshot, DiffEntry}
use hands_free_auto_lab_port.Policy.Types.{ChangePolicy, Target}

abbrev change_paths : List DiffEntry → List String
change_paths = map (λ (c : DiffEntry). c.path)

module _ (targets : List Target) where
  -- a target of the path of a change, whose checks the change passes
  abbrev pub HasTarget : DiffEntry → Type 0
  HasTarget c =
      (t : Target) × (lookup c.path (targets_by_path targets) ≡ some t) × (check_change t c ≡ ok tt)

  get_target_lem :
      (path : String) {t : Target}
      → get_target targets path ≡ ok t
      → lookup path (targets_by_path targets) ≡ some t
  unfolding get_target
  get_target_lem path h = ground arith

  check_changes-HasTarget :
      (cs : List DiffEntry) (seen : List String) {observed : List String}
      → check_changes targets seen cs ≡ ok observed
      → All HasTarget cs
        × ((k : String) → contains k observed ≡ (contains k seen || contains k (change_paths cs)))
  unfolding check_changes contains
  check_changes-HasTarget [] seen h = (tt, λ k. ground (arith, ap (contains k) (ok-injective h)))
  check_changes-HasTarget (c ∷ cs) seen h =
      let (t, et, h₁) = >>=-eq-ok (get_target targets c.path) _ h in
      let (_, fresh, h₂) = >>=-eq-ok (raise_if (contains c.path seen) _) _ h₁ in
      let (_, passed, h₃) = >>=-eq-ok (check_change t c) _ h₂ in
      let (rest, has) = check_changes-HasTarget cs (c.path ∷ seen) h₃ in
      (((t, get_target_lem c.path et, passed), rest), λ k. ground (arith, has k))

module _ {ℓ} (P : DiffEntry → Type ℓ) (k : String) where
  All-lookup :
      (cs : List DiffEntry) {c : DiffEntry}
      → All P cs
      → lookup k (changes_by_path cs) ≡ some c
      → P c
  unfolding lookup
  All-lookup [] all h = cc
  All-lookup (x ∷ xs) (px, rest) h = elim (Bool-cases (str_eq k x.path)) [
    | inl same ↦ subst P (some-injective _ _ (rw same at h)) px
    | inr other ↦ All-lookup xs rest (rw other at h)
  ]

-- A test that all strings of a list pass holds of each of them.
pub all-contains :
    (test : String → Bool) (k : String) (xs : List String)
    → all test xs ≡ true
    → contains k xs ≡ true
    → test k ≡ true
unfolding all contains
all-contains test k [] h here = cc
all-contains test k (x ∷ xs) h here = ground (arith, eq_iff k x, all-contains test k xs)

-- A path that a change has is found.
lookup-change_paths :
    (k : String) (cs : List DiffEntry)
    → contains k (change_paths cs) ≡ true
    → (c : DiffEntry) × (lookup k (changes_by_path cs) ≡ some c)
unfolding lookup contains
lookup-change_paths k [] h = cc
lookup-change_paths k (x ∷ xs) h = elim (Bool-cases (str_eq k x.path)) [
  | inl same ↦ (x, rw same)
  | inr other ↦ let (c, found) = lookup-change_paths k xs (rw other at h) in (c, rw other found)
]

-- A path that has a target is among the paths of the targets.
contains-target_paths :
    (k : String) (ts : List Target) {t : Target}
    → lookup k (targets_by_path ts) ≡ some t
    → contains k (target_paths ts) ≡ true
unfolding lookup contains
contains-target_paths k [] h = cc
contains-target_paths k (x ∷ xs) h = elim (Bool-cases (str_eq k (text_of x.path))) [
  | inl same ↦ rw same
  | inr other ↦ rw other (contains-target_paths k xs (rw other at h))
]

module _ (H : Sha256) where
  pub policy_same :
      (p : ChangePolicy) {q : ChangePolicy} → validate_lab_worker_change_policy H p ≡ ok q → q ≡ p
  unfolding validate_lab_worker_change_policy
  policy_same p h = ground arith

  -- What an accepted difference passed.
  record Accepted (p : ChangePolicy) (b a : Snapshot) (complete : Bool) : Type 0 where
    derived : Diff
    derived_is : diff_lab_workspace_snapshots H b a ≡ ok derived
    observed : List String
    checked : check_changes p.targets [] derived.entries ≡ ok observed
    covered : (complete && not (same_set observed (target_paths p.targets))) ≡ false

  before_same :
      (p : ChangePolicy) (b : Snapshot) {q : ChangePolicy}
      → validate_lab_worker_change_policy_before H p b ≡ ok q
      → q ≡ p
  unfolding validate_lab_worker_change_policy_before
  before_same p b h =
      let (q, eq, h₁) = >>=-eq-ok (validate_lab_worker_change_policy H p) _ h in
      let (b', eb, h₂) = >>=-eq-ok (validate_lab_workspace_snapshot H b) _ h₁ in
      let (_, _, h₃) = >>=-eq-ok (for_each (check_target_before b'.entries) q.targets) _ h₂ in
      sym (ok-injective h₃) ∙ policy_same p eq

  accepted :
      (p : ChangePolicy) (b a : Snapshot) (d : Diff) (complete : Bool) {q : ChangePolicy}
      → validate_lab_worker_change_policy_diff H p b a d complete ≡ ok q
      → Accepted p b a complete
  unfolding validate_lab_worker_change_policy_diff
  accepted p b a d complete h =
      let (q, eq, h₁) = >>=-eq-ok (validate_lab_worker_change_policy_before H p b) _ h in
      let (b', eb, h₂) = >>=-eq-ok (validate_lab_workspace_snapshot H b) _ h₁ in
      let (a', ea, h₃) = >>=-eq-ok (validate_lab_workspace_snapshot H a) _ h₂ in
      let (derived, ed, h₄) = >>=-eq-ok (diff_lab_workspace_snapshots H b' a') _ h₃ in
      let (_, _, h₅) = >>=-eq-ok (raise_if (not (same_diff d derived)) _) _ h₄ in
      let (observed, eo, h₆) = >>=-eq-ok (check_changes q.targets [] derived.entries) _ h₅ in
      let (_, covered, _) =
        >>=-eq-ok (raise_if (complete && not (same_set observed (target_paths q.targets))) _) _
          h₆ in
      let q_is = before_same p b eq in
      record {
        derived = derived;
        derived_is = rw (validate_snapshot_same H b eb, validate_snapshot_same H a ea) at ed;
        observed = observed;
        checked =
            ap (λ (x : ChangePolicy). check_changes x.targets [] derived.entries) (sym q_is) ∙ eo;
        covered =
            ap (λ (x : ChangePolicy). complete && not (same_set observed (target_paths x.targets)))
              (sym q_is)
            ∙ raise_unless _ _ covered;
      }

  -- Where a policy accepts a difference, every path of the workspace holds afterwards what it held
  -- before, or the policy has a target of the path that allows the entry after and names the entry
  -- before.
  pub accepted_changes :
      (p : ChangePolicy) (b a : Snapshot) (d : Diff) (complete : Bool) (k : String)
      {q : ChangePolicy}
      → validate_lab_worker_change_policy_diff H p b a d complete ≡ ok q
      → (lookup k (by_path a.entries) ≡ lookup k (by_path b.entries))
        ⊎ ((t : Target) × (lookup k (targets_by_path p.targets) ≡ some t)
            × IsAllowed t (lookup k (by_path b.entries)) (lookup k (by_path a.entries)))
  accepted_changes p b a d complete k h =
      let s = accepted p b a d complete h in
      let (all, _) = check_changes-HasTarget p.targets s.derived.entries [] s.checked in
      elim (Option-cases (lookup k (changes_by_path s.derived.entries))) [
        | inl none_here ↦
            let same = patch-diff H b a k s.derived_is in inl (sym (rw none_here at same))
        | inr (c, found) ↦
            let (t, et, passed) = All-lookup (HasTarget p.targets) k s.derived.entries all found in
            let change = diff-IsChange H b a k s.derived_is found in
            inr (t, rw change.path at et, check_change-IsAllowed t k _ _ c change passed)
      ]

  -- Where a policy accepts a difference that has to be complete, the path of every target holds
  -- afterwards something else than before.
  pub complete_changes :
      (p : ChangePolicy) (b a : Snapshot) (d : Diff) (k : String) {q : ChangePolicy} {t : Target}
      → validate_lab_worker_change_policy_diff H p b a d true ≡ ok q
      → lookup k (targets_by_path p.targets) ≡ some t
      → lookup k (by_path b.entries) ≢ lookup k (by_path a.entries)
  unfolding same_set contains
  complete_changes p b a d k h found =
      let s = accepted p b a d true h in
      let (_, has) = check_changes-HasTarget p.targets s.derived.entries [] s.checked in
      let target = contains-target_paths k p.targets found in
      let seen =
        all-contains (λ y. contains y s.observed) k (target_paths p.targets)
          (ground (arith, s.covered)) target in
      let (c, change) = lookup-change_paths k s.derived.entries (ground (arith, has k)) in
      (diff-IsChange H b a k s.derived_is change).differ
