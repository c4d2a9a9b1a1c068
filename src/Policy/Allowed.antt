-- ===== src/Policy/Allowed.antt =====
-- What the checks on one change say of the entries of its path (lab_worker_change_policy.py).
use hands_free_auto_lab_port.Prelude.{
  raise_unless, ◌&&◌, ltb_ℤ, ℤ, Option, String, ◌≡◌, refl, sym, ap, ◌∙◌, ◌⊎◌, inl, inr, Bool, true,
  false, not, none, some, ok, arith, >>=-eq-ok, raise_if, raise_if-ok, eq_iff,
}
use hands_free_auto_lab_port.Snapshot.Changes.{Describes, eqb_ℤ-eq, IsChange}
use hands_free_auto_lab_port.Checks.{
  integer_of, optional_text, optional_integer, same_value, Value, null, text, integer,
}
use hands_free_auto_lab_port.Policy.Validate.{is_add}
use hands_free_auto_lab_port.Policy.Evidence.{
  exceeds, is_deleted, is_file_kind, check_before, check_modified, check_change, check_after,
}
use hands_free_auto_lab_port.Snapshot.Types.{Change, change_name, DiffEntry, Entry, file, EntryKind}
use hands_free_auto_lab_port.Policy.Types.{operation_modify, operation_add, Target}

pub same_value-eq : (v w : Value) → same_value v w ≡ true → v ≡ w
unfolding same_value
same_value-eq null null h = refl
same_value-eq (text s) (text t) h = ap text ((eq_iff s t).0 h)
same_value-eq (integer m) (integer n) h = ap integer (eqb_ℤ-eq m n h)
same_value-eq _ _ h = ground arith

-- what a target names before: nothing where it adds, and this very file where it modifies
abbrev pub Origin : Target → Option Entry → Type 0
Origin t o =
    ((t.operation ≡ text operation_add) × (o ≡ none))
    ⊎ ((t.operation ≡ text operation_modify)
        × ((before : Entry) × (o ≡ some before)
            × (before.kind ≡ file)
            × (t.before_bytes ≡ optional_integer before.bytes)
            × (t.before_sha256 ≡ optional_text before.sha256)
            × (t.before_mode ≡ integer before.mode)))

-- What a target allows on its path, from the entry before to the entry after.
pub record IsAllowed (t : Target) (o n : Option Entry) : Type 0 where
  pub after : Entry
  pub after_is : n ≡ some after
  pub regular : after.kind ≡ file
  pub mode : t.final_mode ≡ integer after.mode
  pub size : ℤ
  pub size_is : after.bytes ≡ some size
  pub bounded : ltb_ℤ (integer_of t.max_final_bytes) size ≡ false
  pub origin : Origin t o

pub &&-true : (a b : Bool) → (a && b) ≡ true → (a ≡ true) × (b ≡ true)
&&-true a b h = ground arith

file_kind : (k : EntryKind) → is_file_kind k ≡ true → k ≡ file
file_kind file h = refl
file_kind _ h = cc

exceeds_lem :
    (o : Option ℤ) (limit : ℤ)
    → exceeds o limit ≡ false
    → (m : ℤ) × (o ≡ some m) × (ltb_ℤ limit m ≡ false)
exceeds_lem none limit h = cc
exceeds_lem (some m) limit h = (m, refl, h)

-- The checks on the entry after hold of a file with the mode of the target, and not too large.
check_after_lem :
    (t : Target) (path : String) (n : Option Entry)
    → check_after t path n ≡ ok tt
    → (a : Entry) × (n ≡ some a)
      × (a.kind ≡ file)
      × (t.final_mode ≡ integer a.mode)
      × ((m : ℤ) × (a.bytes ≡ some m) × (ltb_ℤ (integer_of t.max_final_bytes) m ≡ false))
unfolding check_after
check_after_lem t path none h = cc
check_after_lem t path (some a) h =
    let (_, kind, h₁) = >>=-eq-ok (raise_if (not (is_file_kind a.kind)) _) _ h in
    let (_, mode, h₂) =
      >>=-eq-ok (raise_if (not (same_value (integer a.mode) t.final_mode)) _) _ h₁ in
    (
      a,
      refl,
      file_kind a.kind (raise_if-ok _ _ kind),
      sym (same_value-eq _ _ (raise_if-ok _ _ mode)),
      exceeds_lem a.bytes _ (raise_unless _ _ h₂),
    )

check_modified_lem :
    (t : Target) (path : String) (o : Option Entry)
    → check_modified t path o ≡ ok tt
    → (b : Entry) × (o ≡ some b)
      × (b.kind ≡ file)
      × (t.before_bytes ≡ optional_integer b.bytes)
      × (t.before_sha256 ≡ optional_text b.sha256)
      × (t.before_mode ≡ integer b.mode)
unfolding check_modified
check_modified_lem t path none h = cc
check_modified_lem t path (some b) h =
    let (_, kind, h₁) = >>=-eq-ok (raise_if (not (is_file_kind b.kind)) _) _ h in
    let (bytes, rest) = &&-true _ _ (raise_if-ok _ _ h₁) in
    let (digest, mode) = &&-true _ _ rest in
    (
      b,
      refl,
      file_kind b.kind (raise_if-ok _ _ kind),
      sym (same_value-eq _ _ bytes),
      sym (same_value-eq _ _ digest),
      sym (same_value-eq _ _ mode),
    )

-- The entry before is that of the operation.
check_before-Origin :
    (t : Target) (path : String) (change : Change) (o n : Option Entry)
    → Describes change o n
    → is_deleted change ≡ false
    → t.operation ≡ text (change_name change)
    → check_before t path o ≡ ok tt
    → Origin t o
unfolding check_before change_name same_value
check_before-Origin t path Change.added none (some a) d k op h = inl (op, refl)
check_before-Origin t path Change.modified (some b) (some a) d k op h =
    let not_add : is_add t ≡ false = rw op in
    inr (op, check_modified_lem t path (some b) (rw not_add at h))
check_before-Origin t path Change.deleted o n d k op h = cc
check_before-Origin t path _ o n d k op h = absurd d

pub check_change-IsAllowed :
    (t : Target) (k : String) (o n : Option Entry) (c : DiffEntry)
    → IsChange k o n c
    → check_change t c ≡ ok tt
    → IsAllowed t o n
unfolding check_change check_before
check_change-IsAllowed t k o n c s h =
    let (_, kept, h₁) = >>=-eq-ok (raise_if (is_deleted c.change) _) _ h in
    let (_, op, h₂) =
      >>=-eq-ok (raise_if (not (same_value (text (change_name c.change)) t.operation)) _) _ h₁ in
    let (_, final, h₃) = >>=-eq-ok (check_after t c.path c.after) _ h₂ in
    let (a, ea, regular, mode, (m, em, bounded)) = check_after_lem t c.path c.after final in
    record {
      after = a;
      after_is = sym s.after ∙ ea;
      regular = regular;
      mode = mode;
      size = m;
      size_is = em;
      bounded = bounded;
      origin =
          check_before-Origin t c.path c.change o n s.describes (raise_unless _ _ kept)
            (sym (same_value-eq _ _ (raise_if-ok _ _ op))) (rw s.before at h₃);
    }
