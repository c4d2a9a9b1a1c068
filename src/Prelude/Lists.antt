-- ===== src/Prelude/Lists.antt =====
-- Lists over the native numbers: what the program uses of `tuple`, `list`, `set` and `dict`.
use Prim.Native.Nat.{ℕ, suc}
use Prim.Native.String.{String}
use mathlib.Core.Bool.{Bool, true, false, ◌&&◌, ◌||◌}
use mathlib.Core.Option.{Option, none, some}
use mathlib.Core.List.{List, [], ◌∷◌}
use text.Mathlib.Text.{◌==◌ as str_eq}
use hands_free_auto_lab_port.Prelude.Tests.{if◌then◌else◌}

module _ {ℓ} {A : Type ℓ} where
  abbrev pub length : List A → ℕ
  length [] = 0
  length (x ∷ xs) = suc (length xs)

  abbrev pub is_nil : List A → Bool
  is_nil [] = true
  is_nil (x ∷ xs) = false

module _ {ℓ} {A : Type ℓ} (p : A → Bool) where
  unfoldable pub any : List A → Bool
  any [] = false
  any (x ∷ xs) = p x || any xs

  unfoldable pub all : List A → Bool
  all [] = true
  all (x ∷ xs) = p x && all xs

-- A predicate that holds of every item.
abbrev pub All {ℓ κ} : {A : Type ℓ} → (A → Type κ) → List A → Type κ
All P [] = Unit
All P (x ∷ xs) = P x × All P xs

-- `key in keys`
unfoldable pub contains : String → List String → Bool
contains k [] = false
contains k (j ∷ js) = str_eq k j || contains k js

-- `len(set(keys)) == len(keys)`: no key stands twice
unfoldable pub distinct : List String → Bool
unfolding contains
distinct [] = true
distinct (k ∷ ks) = if contains k ks then false else distinct ks

-- `set(xs) == set(ys)`
unfoldable pub same_set : List String → List String → Bool
unfolding all contains
same_set xs ys = all (λ x. contains x ys) xs && all (λ y. contains y xs) ys

-- A `dict` or `Mapping` with string keys, as an association list.
module _ {ℓ} {V : Type ℓ} where
  unfoldable pub lookup : String → List (String × V) → Option V
  lookup k [] = none
  lookup k ((j, v) ∷ d) = if str_eq k j then some v else lookup k d

  abbrev pub keys : List (String × V) → List String
  keys [] = []
  keys ((k, _) ∷ d) = k ∷ keys d
