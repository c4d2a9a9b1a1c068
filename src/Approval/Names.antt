-- ===== src/Approval/Names.antt =====
-- Two lists hold the same names: what the comparison of two sets says
-- (`set(value) != fields` of lab_promotion_approval_state.py).
use mathlib.Core.List.{Memᴰ}
use mathlib.Core.List.Memᴰ
use hands_free_auto_lab_port.Prelude.{
  String, List, [], ◌∷◌, all, ◌&&◌, ap, contains, true, ◌≡◌, ◌∙◌, inl, inr, Bool-cases, str_eq,
  eq_iff, same_set, arith, Bool,
}

-- Every name that is in one of the lists is in the other.
abbrev pub SameNames : List String → List String → Type 0
SameNames xs ys = (s : String) → (Memᴰ s xs → Memᴰ s ys) × (Memᴰ s ys → Memᴰ s xs)

both_hold : (a b : Bool) → (a && b) ≡ true → (a ≡ true) × (b ≡ true)
both_hold a b h = ground arith

contains-Memᴰ : (s : String) (ys : List String) → contains s ys ≡ true → Memᴰ s ys
unfolding contains
contains-Memᴰ s [] h = cc
contains-Memᴰ s (y ∷ ys) h = elim (Bool-cases (str_eq s y)) [
  | inl same ↦ Memᴰ.head ((eq_iff s y).0 same)
  | inr other ↦ Memᴰ.tail (contains-Memᴰ s ys (rw other at h))
]

all-Memᴰ :
    (s : String) (xs ys : List String) → all (λ x. contains x ys) xs ≡ true → Memᴰ s xs → Memᴰ s ys
unfolding all
all-Memᴰ s [] ys h m = absurd (Memᴰ.not-nil m)
all-Memᴰ s (x ∷ xs) ys h (Memᴰ.head e) =
    contains-Memᴰ s ys (ap (λ n. contains n ys) e ∙ (both_hold _ _ h).0)
all-Memᴰ s (x ∷ xs) ys h (Memᴰ.tail m) = all-Memᴰ s xs ys (both_hold _ _ h).1 m

pub same_set-SameNames : (xs ys : List String) → same_set xs ys ≡ true → SameNames xs ys
unfolding same_set
same_set-SameNames xs ys h =
    let (there, back) = both_hold (all (λ x. contains x ys) xs) _ h in
    λ s. (all-Memᴰ s xs ys there, all-Memᴰ s ys xs back)
