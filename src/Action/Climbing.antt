-- ===== src/Action/Climbing.antt =====
-- What `posixpath.normpath` makes of a relative path: names, after `..` where it climbs
-- (lab_policy.py).
use mathlib.Core.Path.{subst}
use hands_free_auto_lab_port.Prelude.{
  codes, ◌≢◌, All, List, [], ◌∷◌, refl, ◌==◌, is_dot, is_dot_dot, true, false, is_nil, inl, inr,
  split, Bool, arith, ◌⊎◌, ◌≡◌, ℕ, extend_head, Bool-cases, not, ◌||◌, sym, ◌∙◌, ap, if◌then◌else◌,
}
use hands_free_auto_lab_port.Paths.{join, same_codes, starts_with}
use hands_free_auto_lab_port.Action.Eligible.{
  kept_parts, last_is_dot_dot, normpath, reverse_onto, without_last,
}

-- No code point of a part is `/`.
abbrev pub NoSlash : List ℕ → Type 0
NoSlash = All (λ c. c ≢ b'/')

-- The name of an entry of a directory: not empty, neither `.` nor `..`, and without `/`.
pub record IsName (part : List ℕ) : Type 0 where
  pub one_part : NoSlash part
  pub not_empty : part ≢ []
  pub not_dot : part ≢ b'.' ∷ []
  pub not_dot_dot : part ≢ b'.' ∷ b'.' ∷ []

abbrev dots : List ℕ
dots = b'.' ∷ b'.' ∷ []

extend_head-NoSlash :
    (c : ℕ) (parts : List (List ℕ))
    → c ≢ b'/'
    → All NoSlash parts
    → All NoSlash (extend_head c parts)
extend_head-NoSlash c [] h k = ((h, tt), tt)
extend_head-NoSlash c (part ∷ parts) h (k, ks) = ((h, k), ks)

differs : (c d : ℕ) → (c == d) ≡ false → c ≢ d
differs c d h e = ground arith

split-NoSlash : (cs : List ℕ) → All NoSlash (split b'/' cs)
unfolding split
split-NoSlash [] = (tt, tt)
split-NoSlash (c ∷ cs) = elim (Bool-cases (c == b'/')) [
  | inl slash ↦ rw slash (tt, split-NoSlash cs)
  | inr other ↦
      rw other (extend_head-NoSlash c (split b'/' cs) (differs c b'/' other) (split-NoSlash cs))
]

-- every part is `..`
abbrev Climbs : List (List ℕ) → Type 0
Climbs = All (λ part. part ≡ dots)

-- The parts that are kept, the last one first: names, and below them nothing but `..`.
abbrev Layered : List (List ℕ) → Type 0
Layered [] = Unit
Layered (part ∷ parts) = (IsName part × Layered parts) ⊎ ((part ≡ dots) × Climbs parts)

is_dot_dot-dots : (part : List ℕ) → is_dot_dot part ≡ true → part ≡ dots
is_dot_dot-dots [] h = cc
is_dot_dot-dots (c ∷ []) h = cc
is_dot_dot-dots (c ∷ (d ∷ [])) h =
    let first : c ≡ b'.' = ground arith in
    let second : d ≡ b'.' = ground arith in λ i. first i ∷ second i ∷ []
is_dot_dot-dots (c ∷ (d ∷ (e ∷ cs))) h = cc

no_truth : false ≡ true → ⊥
no_truth h = cc

IsName-of :
    (part : List ℕ)
    → NoSlash part
    → (is_nil part || is_dot part) ≡ false
    → is_dot_dot part ≡ false
    → IsName part
IsName-of part k plain single = record {
  one_part = k;
  not_empty = λ e. no_truth (sym plain ∙ ap (λ p. is_nil p || is_dot p) e);
  not_dot = λ e. no_truth (sym plain ∙ ap (λ p. is_nil p || is_dot p) e);
  not_dot_dot = λ e. no_truth (sym single ∙ ap is_dot_dot e);
}

-- `..` goes on top of nothing but `..`, and takes the last name away otherwise.
Layered-climb :
    (kept : List (List ℕ))
    → Layered kept
    → Layered (if last_is_dot_dot kept then dots ∷ kept else without_last kept)
Layered-climb [] k = inr (refl, tt)
Layered-climb (part ∷ parts) (inl (name, k)) = elim (Bool-cases (is_dot_dot part)) [
  | inl up ↦ absurd (name.not_dot_dot (is_dot_dot-dots part up))
  | inr plain ↦ rw plain k
]
Layered-climb (part ∷ parts) (inr (up, k)) = rw (ap is_dot_dot up) (inr (refl, (up, k)))

-- one round of the loop of `kept_parts`
Layered-next :
    (kept : List (List ℕ)) (part : List ℕ)
    → Layered kept
    → NoSlash part
    → Layered (
        if is_nil part || is_dot part
        then kept
        else if not (is_dot_dot part) || last_is_dot_dot kept
        then part ∷ kept
        else without_last kept)
Layered-next kept part k h = elim (Bool-cases (is_nil part || is_dot part)) [
  | inl skipped ↦ rw skipped k
  | inr plain ↦ rw plain (elim (Bool-cases (is_dot_dot part)) [
    | inl up ↦ rw up (
        subst (λ p. Layered (if last_is_dot_dot kept then p ∷ kept else without_last kept))
          (sym (is_dot_dot-dots part up)) (Layered-climb kept k))
    | inr single ↦ rw single (inl (IsName-of part h plain single, k))
  ])
]

kept_parts-Layered :
    (parts kept : List (List ℕ))
    → Layered kept
    → All NoSlash parts
    → Layered (kept_parts kept parts)
unfolding kept_parts
kept_parts-Layered [] kept k h = k
kept_parts-Layered (part ∷ parts) kept k (h, hs) =
    kept_parts-Layered parts _ (Layered-next kept part k h) hs

-- The names stand in order above the `..` that are left.
reverse_onto-Climbs :
    (kept acc : List (List ℕ))
    → Climbs kept
    → (rest : List (List ℕ)) × (reverse_onto kept (dots ∷ acc) ≡ dots ∷ rest)
unfolding reverse_onto
reverse_onto-Climbs [] acc k = (acc, refl)
reverse_onto-Climbs (part ∷ parts) acc (up, k) =
    let (rest, e) = reverse_onto-Climbs parts (dots ∷ acc) k in
    (rest, ap (λ p. reverse_onto parts (p ∷ (dots ∷ acc))) up ∙ e)

reverse_onto-names :
    (kept acc : List (List ℕ))
    → Layered kept
    → All IsName acc
    → All IsName (reverse_onto kept acc)
      ⊎ ((rest : List (List ℕ)) × (reverse_onto kept acc ≡ dots ∷ rest))
unfolding reverse_onto
reverse_onto-names [] acc k h = inl h
reverse_onto-names (part ∷ parts) acc (inl (name, k)) h =
    reverse_onto-names parts (part ∷ acc) k (name, h)
reverse_onto-names (part ∷ parts) acc (inr (up, k)) h =
    let (rest, e) = reverse_onto-Climbs parts acc k in
    inr (rest, ap (λ p. reverse_onto parts (p ∷ acc)) up ∙ e)

pub same_codes-eq : (xs ys : List ℕ) → same_codes xs ys ≡ true → xs ≡ ys
unfolding same_codes
same_codes-eq [] [] h = refl
same_codes-eq [] (y ∷ ys) h = cc
same_codes-eq (x ∷ xs) [] h = cc
same_codes-eq (x ∷ xs) (y ∷ ys) h =
    let first : x ≡ y = ground arith in
    let rest = same_codes-eq xs ys (ground arith) in λ i. first i ∷ rest i

-- The names of a path, from the workspace down.
abbrev pub Named : List ℕ → Type 0
Named path =
    (path ≡ b'.' ∷ [])
    ⊎ ((first : List ℕ) × (rest : List (List ℕ)) × All IsName (first ∷ rest)
        × (path ≡ join (first ∷ rest)))

-- `normpath` writes `.` for no names.
abbrev pub text_of : List (List ℕ) → List ℕ
text_of parts = let text = join parts in if is_nil text then b'.' ∷ [] else text

abbrev pub climbing : List ℕ → Bool
climbing path = is_dot_dot path || starts_with (codes "../") path

join-nonempty :
    (first : List ℕ) (rest : List (List ℕ)) → first ≢ [] → is_nil (join (first ∷ rest)) ≡ false
unfolding join
join-nonempty [] rest h = absurd (h refl)
join-nonempty (c ∷ cs) [] h = refl
join-nonempty (c ∷ cs) (next ∷ rest) h = refl

-- A path that starts with `..` is seen to do so.
-- A path that starts with `..` is seen to do so.
text_of-climbs : (rest : List (List ℕ)) → climbing (text_of (dots ∷ rest)) ≡ true
unfolding join starts_with codes
text_of-climbs [] = refl
text_of-climbs (next ∷ rest) = refl

pub text_of-join :
    (first : List ℕ) (rest : List (List ℕ))
    → first ≢ []
    → text_of (first ∷ rest) ≡ join (first ∷ rest)
text_of-join first rest h = rw (join-nonempty first rest h) refl

text_of-Named :
    (parts : List (List ℕ))
    → (All IsName parts ⊎ ((rest : List (List ℕ)) × (parts ≡ dots ∷ rest)))
    → climbing (text_of parts) ≡ false
    → Named (text_of parts)
unfolding join
text_of-Named parts (inr (rest, e)) inside =
    absurd (no_truth (sym inside ∙ (ap (λ ps. climbing (text_of ps)) e ∙ text_of-climbs rest)))
text_of-Named [] (inl names) inside = inl refl
text_of-Named (first ∷ rest) (inl names) inside =
    inr (first, rest, names, text_of-join first rest (names.0).not_empty)

-- A path that `normpath` leaves alone, and that does not start with `..`, never climbs.
pub normpath-Named : (path : List ℕ) → normpath path ≡ path → climbing path ≡ false → Named path
unfolding normpath
normpath-Named path same inside =
    let parts = reverse_onto (kept_parts [] (split b'/' path)) [] in
    let layered = kept_parts-Layered (split b'/' path) [] tt (split-NoSlash path) in
    let normal : text_of parts ≡ path = same in
    subst Named normal (
      text_of-Named parts (reverse_onto-names (kept_parts [] (split b'/' path)) [] layered tt)
        (ap climbing normal ∙ inside))
