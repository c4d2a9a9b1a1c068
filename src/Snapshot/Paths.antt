-- ===== src/Snapshot/Paths.antt =====
-- Lookups in the entries of a snapshot and in the paths of two (lab_workspace_snapshot.py).
use hands_free_auto_lab_port.Prelude.{
  true, String, ◌≡◌, ◌≢◌, refl, ◌∙◌, false, ◌||◌, none, List, [], ◌∷◌, ◌++◌, contains, lookup,
  sorted_by, insert_sorted, eq_iff, arith, str_eq,
}
use hands_free_auto_lab_port.Snapshot.Types.{Entry}
use hands_free_auto_lab_port.Snapshot.Validate.{entry_paths}
use hands_free_auto_lab_port.Snapshot.Diff.{by_path, unique, all_paths}

contains-insert_sorted :
    (k x : String) (ys : List String)
    → contains k (insert_sorted (λ path. path) x ys) ≡ (str_eq k x || contains k ys)
unfolding contains insert_sorted
contains-insert_sorted k x [] = refl
contains-insert_sorted k x (y ∷ ys) = ground (arith, contains-insert_sorted k x ys)

contains-sorted_by :
    (k : String) (xs : List String) → contains k (sorted_by (λ path. path) xs) ≡ contains k xs
unfolding contains sorted_by
contains-sorted_by k [] = refl
contains-sorted_by k (x ∷ xs) =
    ground
      (arith, contains-insert_sorted k x (sorted_by (λ path. path) xs), contains-sorted_by k xs)

contains-unique : (k : String) (xs : List String) → contains k (unique xs) ≡ contains k xs
unfolding contains unique
contains-unique k [] = refl
contains-unique k (x ∷ xs) = ground (arith, eq_iff k x, contains-unique k xs, contains-unique x xs)

contains-append :
    (k : String) (xs ys : List String) → contains k (xs ++ ys) ≡ (contains k xs || contains k ys)
unfolding contains
contains-append k [] ys = refl
contains-append k (x ∷ xs) ys = ground (arith, contains-append k xs ys)

pub contains-all_paths :
    (k : String) (before after : List Entry)
    → contains k (all_paths before after)
      ≡ (contains k (entry_paths before) || contains k (entry_paths after))
unfolding all_paths
contains-all_paths k before after =
    contains-sorted_by k _ ∙ contains-unique k _ ∙ contains-append k _ _

pub lookup_absent :
    (k : String) (es : List Entry)
    → contains k (entry_paths es) ≡ false
    → lookup k (by_path es) ≡ none
unfolding contains lookup
lookup_absent k [] h = refl
lookup_absent k (e ∷ es) h = ground (arith, lookup_absent k es)

pub lookup_present :
    (k : String) (es : List Entry)
    → contains k (entry_paths es) ≡ true
    → lookup k (by_path es) ≢ none
unfolding contains lookup
lookup_present k [] h e = cc
lookup_present k (x ∷ es) h e = ground (arith, lookup_present k es)
