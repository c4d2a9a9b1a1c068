-- ===== src/Snapshot/Changes.antt =====
-- What the difference of two snapshots says of each path (lab_workspace_snapshot.py).
use mathlib.Core.Path.{subst}
use mathlib.Core.Option.{some-injective}
use hands_free_auto_lab_port.Prelude.{
  ok, ◌||◌, ◌∙◌, ◌≢◌, ◌⊎◌, raise_if, not, sym, >>=-eq-ok, ok-injective, Bool-cases, String, ◌≡◌,
  refl, ap, Bool, Option-cases, inl, inr, true, Option, none, some, List, [], ◌∷◌, map, ℤ, eqb_ℤ,
  str_eq, contains, lookup, if◌then◌else◌, eq_iff, eq_refl, arith,
}
use hands_free_auto_lab_port.Snapshot.Diff.{
  same_workspace, diff_of, diff_lab_workspace_snapshots, all_paths, same_kind, same_option,
  same_entry, by_path, compare_entries, changes,
}
use hands_free_auto_lab_port.Snapshot.Paths.{contains-all_paths, lookup_absent, lookup_present}
use hands_free_auto_lab_port.Snapshot.Validate.{validate_lab_workspace_snapshot, entry_paths}
use hands_free_auto_lab_port.Checks.{Sha256}
use hands_free_auto_lab_port.Snapshot.Types.{Diff, Snapshot, Change, EntryKind, Entry, DiffEntry}

pub eqb_ℤ-eq : (a b : ℤ) → eqb_ℤ a b ≡ true → a ≡ b
eqb_ℤ-eq a b h = ground arith

pub eqb_ℤ_self : (a : ℤ) → eqb_ℤ a a ≡ true
eqb_ℤ_self a = ground arith

same_kind-eq : (a b : EntryKind) → same_kind a b ≡ true → a ≡ b
unfolding same_kind
same_kind-eq (EntryKind.unknown s) (EntryKind.unknown t) h = ap EntryKind.unknown ((eq_iff s t).0 h)
same_kind-eq _ b h = ground arith

same_kind_self : (a : EntryKind) → same_kind a a ≡ true
unfolding same_kind
same_kind_self (EntryKind.unknown s) = eq_refl s
same_kind_self _ = refl

same_option-eq {ℓ} :
    {A : Type ℓ} (same : A → A → Bool) (o n : Option A)
    → ((a b : A) → same a b ≡ true → a ≡ b)
    → same_option same o n ≡ true
    → o ≡ n
unfolding same_option
same_option-eq same none none sound h = refl
same_option-eq same (some a) (some b) sound h = ap some (sound a b h)
same_option-eq same none (some b) sound h = cc
same_option-eq same (some a) none sound h = cc

same_option_self {ℓ} :
    {A : Type ℓ} (same : A → A → Bool) (o : Option A)
    → ((a : A) → same a a ≡ true)
    → same_option same o o ≡ true
unfolding same_option
same_option_self same none self = refl
same_option_self same (some a) self = self a

str_eq-eq : (a b : String) → str_eq a b ≡ true → a ≡ b
str_eq-eq a b = (eq_iff a b).0

pub same_entry-eq : (a b : Entry) → same_entry a b ≡ true → a ≡ b
unfolding same_entry
same_entry-eq a b h = ground (
  arith,
  eq_iff a.path b.path,
  same_kind-eq a.kind b.kind,
  eqb_ℤ-eq a.mode b.mode,
  same_option-eq eqb_ℤ a.bytes b.bytes eqb_ℤ-eq,
  same_option-eq str_eq a.sha256 b.sha256 str_eq-eq,
)

pub same_entry_self : (a : Entry) → same_entry a a ≡ true
unfolding same_entry
same_entry_self a = rw (
  eq_refl a.path,
  same_kind_self a.kind,
  eqb_ℤ_self a.mode,
  same_option_self eqb_ℤ a.bytes eqb_ℤ_self,
  same_option_self str_eq a.sha256 eq_refl,
)

-- `{item.path: item for item in diff.entries}`
abbrev pub changes_by_path : List DiffEntry → List (String × DiffEntry)
changes_by_path = map (λ (d : DiffEntry). (d.path, d))

path-compare_entries :
    (path : String) (o n : Option Entry) {d : DiffEntry}
    → compare_entries path o n ≡ some d
    → d.path ≡ path
unfolding compare_entries
path-compare_entries path o n h = ground arith

module _ (before after : List Entry) where
  lookup-changes :
      (k : String) (paths : List String)
      → lookup k (changes_by_path (changes before after paths)) ≡ (
          if contains k paths
          then compare_entries k (lookup k (by_path before)) (lookup k (by_path after))
          else none)
  unfolding changes contains lookup
  lookup-changes k [] = refl
  lookup-changes k (path ∷ paths) =
      elim (Option-cases
        (compare_entries path (lookup path (by_path before)) (lookup path (by_path after)))) [
          | inl none_here ↦ ground (arith, eq_iff k path, lookup-changes k paths)
          | inr (d, some_here) ↦ ground (
            arith,
            eq_iff k path,
            path-compare_entries path (lookup path (by_path before)) (lookup path (by_path after))
                some_here,
            eq_iff k d.path,
            lookup-changes k paths,
          )
        ]

  -- A path of neither snapshot has no entry, and any other what its two entries compare to.
  lookup-all_changes :
      (k : String)
      → lookup k (changes_by_path (changes before after (all_paths before after))) ≡ (
          if contains k (entry_paths before) || contains k (entry_paths after)
          then compare_entries k (lookup k (by_path before)) (lookup k (by_path after))
          else none)
  lookup-all_changes k =
      rw (← contains-all_paths k before after) (lookup-changes k (all_paths before after))

-- which change leads from the one entry to the other
abbrev pub Describes : Change → Option Entry → Option Entry → Type 0
Describes Change.added none (some a) = Unit
Describes Change.deleted (some b) none = Unit
Describes Change.modified (some b) (some a) = Unit
Describes _ _ _ = ⊥

-- the entry of a path after a change, from the one before it
abbrev pub patch : Option DiffEntry → Option Entry → Option Entry
patch none before = before
patch (some d) before = d.after

-- What an entry of a difference says of its path.
pub record IsChange (k : String) (o n : Option Entry) (d : DiffEntry) : Type 0 where
  pub path : d.path ≡ k
  pub before : d.before ≡ o
  pub after : d.after ≡ n
  pub differ : o ≢ n
  pub describes : Describes d.change o n

patch-compare_entries : (k : String) (o n : Option Entry) → patch (compare_entries k o n) o ≡ n
unfolding compare_entries
patch-compare_entries k none n = refl
patch-compare_entries k (some b) none = refl
patch-compare_entries k (some b) (some a) = ground (arith, same_entry-eq b a)

compare_entries-IsChange :
    (k : String) (o n : Option Entry) {d : DiffEntry}
    → (o ≡ none → n ≢ none)
    → compare_entries k o n ≡ some d
    → IsChange k o n d
unfolding compare_entries
compare_entries-IsChange k none none present h = absurd (present refl refl)
compare_entries-IsChange k none (some a) present h =
    subst (IsChange k none (some a)) (some-injective _ _ h)
      (record { path = refl; before = refl; after = refl; differ = λ e. cc; describes = tt })
compare_entries-IsChange k (some b) none present h =
    subst (IsChange k (some b) none) (some-injective _ _ h)
      (record { path = refl; before = refl; after = refl; differ = λ e. cc; describes = tt })
compare_entries-IsChange k (some b) (some a) present h = elim (Bool-cases (same_entry b a)) [
  | inl same ↦ absurd (ground arith)
  | inr other ↦
      let h' = rw other at h in
      subst (IsChange k (some b) (some a)) (some-injective _ _ h') (record {
        path = refl;
        before = refl;
        after = refl;
        differ = λ e. ground (arith, same_entry_self a);
        describes = tt;
      })
]

module _ (k : String) (before after : List Entry) where
  abbrev pub change_at : Option DiffEntry
  change_at = lookup k (changes_by_path (changes before after (all_paths before after)))

  -- The entries of both snapshots are absent, or the entry of the difference is what they compare
  -- to.
  change_at-cases :
      ((lookup k (by_path before) ≡ none) × (lookup k (by_path after) ≡ none) × (change_at ≡ none))
      ⊎ ((lookup k (by_path before) ≡ none → lookup k (by_path after) ≢ none)
          × (change_at ≡ compare_entries k (lookup k (by_path before)) (lookup k (by_path after))))
  change_at-cases = elim (Bool-cases (contains k (entry_paths before))) [
    | inl here ↦
        inr (
          λ e. absurd (lookup_present k before here e),
          lookup-all_changes before after k ∙ rw here,
        )
    | inr gone ↦ elim (Bool-cases (contains k (entry_paths after))) [
      | inl new ↦
          inr (λ e. lookup_present k after new, lookup-all_changes before after k ∙ rw (gone, new))
      | inr never ↦ inl (
        lookup_absent k before gone,
        lookup_absent k after never,
        lookup-all_changes before after k ∙ rw (gone, never),
      )
    ]
  ]

  pub patch-change_at : patch change_at (lookup k (by_path before)) ≡ lookup k (by_path after)
  patch-change_at = elim change_at-cases [
    | inl (o, n, c) ↦ rw c (o ∙ sym n)
    | inr (_, c) ↦ rw c (patch-compare_entries k _ _)
  ]

  pub change_at-IsChange :
      {d : DiffEntry}
      → change_at ≡ some d
      → IsChange k (lookup k (by_path before)) (lookup k (by_path after)) d
  change_at-IsChange h = elim change_at-cases [
    | inl (o, n, c) ↦ cc
    | inr (present, c) ↦ compare_entries-IsChange k _ _ present (sym c ∙ h)
  ]

module _ (H : Sha256) where
  pub validate_snapshot_same :
      (s : Snapshot) {t : Snapshot} → validate_lab_workspace_snapshot H s ≡ ok t → t ≡ s
  unfolding validate_lab_workspace_snapshot
  validate_snapshot_same s h = ground arith

  pub diff_changes :
      (b a : Snapshot) {d : Diff}
      → diff_lab_workspace_snapshots H b a ≡ ok d
      → d.entries ≡ changes b.entries a.entries (all_paths b.entries a.entries)
  unfolding diff_lab_workspace_snapshots diff_of
  diff_changes b a {d} h =
      let (b', eb, h₁) = >>=-eq-ok (validate_lab_workspace_snapshot H b) _ h in
      let (a', ea, h₂) = >>=-eq-ok (validate_lab_workspace_snapshot H a) _ h₁ in
      let (_, _, h₃) = >>=-eq-ok (raise_if (not (same_workspace b' a')) _) _ h₂ in
      ap (λ (x : Diff). x.entries) (sym (ok-injective h₃))
      ∙ cc (validate_snapshot_same b eb, validate_snapshot_same a ea)

  -- The difference of two snapshots says how to get from the one to the other: at every path, the
  -- later snapshot holds what the entry of the difference gives, or, where the difference has no
  -- entry, what the earlier snapshot holds.
  pub patch-diff :
      (b a : Snapshot) {d : Diff} (k : String)
      → diff_lab_workspace_snapshots H b a ≡ ok d
      → patch (lookup k (changes_by_path d.entries)) (lookup k (by_path b.entries))
        ≡ lookup k (by_path a.entries)
  patch-diff b a k h = rw (diff_changes b a h) (patch-change_at k b.entries a.entries)

  -- An entry of the difference of two snapshots bears the path that it is found at and holds the
  -- entries of that path in the two, which are not the same, and it is ADDED, DELETED or MODIFIED
  -- as the one or the other is absent or none is.
  pub diff-IsChange :
      (b a : Snapshot) {d : Diff} (k : String) {c : DiffEntry}
      → diff_lab_workspace_snapshots H b a ≡ ok d
      → lookup k (changes_by_path d.entries) ≡ some c
      → IsChange k (lookup k (by_path b.entries)) (lookup k (by_path a.entries)) c
  diff-IsChange b a k h found =
      change_at-IsChange k b.entries a.entries (rw (diff_changes b a h) at found)
