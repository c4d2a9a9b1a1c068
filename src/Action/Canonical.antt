-- ===== src/Action/Canonical.antt =====
-- Paths of names are those that `posixpath.normpath` leaves alone (lab_policy.py).
use mathlib.Core.Path.{subst}
use mathlib.Core.List.{append-nil}
use hands_free_auto_lab_port.Prelude.{
  codes, ◌≢◌, All, List, [], ◌∷◌, ◌++◌, refl, ◌==◌, is_dot, is_dot_dot, false, is_nil, inl, inr,
  split, arith, ◌≡◌, ℕ, sym, ◌∙◌, ap, starts_with_code, ◌||◌, ◌&&◌,
}
use hands_free_auto_lab_port.Paths.{join, starts_with}
use hands_free_auto_lab_port.Action.Eligible.{kept_parts, normpath, reverse_onto}
use hands_free_auto_lab_port.Action.Climbing.{
  IsName, Named, NoSlash, climbing, text_of, text_of-join,
}

equals : (c d : ℕ) → c ≢ d → (c == d) ≡ false
equals c d h = ground arith

split-part : (part : List ℕ) → NoSlash part → split b'/' part ≡ part ∷ []
unfolding split
split-part [] h = refl
split-part (c ∷ cs) (h, hs) = rw (equals c b'/' h, split-part cs hs) refl

split-append :
    (part rest : List ℕ)
    → NoSlash part
    → split b'/' (part ++ (b'/' ∷ rest)) ≡ part ∷ split b'/' rest
unfolding split
split-append [] rest h = refl
split-append (c ∷ cs) rest (h, hs) = rw (equals c b'/' h, split-append cs rest hs) refl

split-join :
    (first : List ℕ) (rest : List (List ℕ))
    → All IsName (first ∷ rest)
    → split b'/' (join (first ∷ rest)) ≡ first ∷ rest
unfolding join
split-join first [] (name, _) = split-part first name.one_part
split-join first (next ∷ rest) (name, names) =
    split-append first (join (next ∷ rest)) name.one_part
    ∙ ap (λ parts. first ∷ parts) (split-join next rest names)

plain_part : (part : List ℕ) → part ≢ [] → part ≢ b'.' ∷ [] → (is_nil part || is_dot part) ≡ false
plain_part [] h k = absurd (h refl)
plain_part (c ∷ []) h k = equals c b'.' (λ e. k (ap (λ x. x ∷ []) e))
plain_part (c ∷ (d ∷ cs)) h k = refl

two_dots : (c d : ℕ) → (c ≡ b'.' → d ≡ b'.' → ⊥) → (c == b'.' && d == b'.') ≡ false
two_dots c d h = ground arith

not_climbing : (part : List ℕ) → part ≢ b'.' ∷ b'.' ∷ [] → is_dot_dot part ≡ false
not_climbing [] h = refl
not_climbing (c ∷ []) h = refl
not_climbing (c ∷ (d ∷ [])) h = two_dots c d (λ e f. h (λ i. e i ∷ f i ∷ []))
not_climbing (c ∷ (d ∷ (e ∷ cs))) h = refl

kept_parts-names :
    (parts kept : List (List ℕ))
    → All IsName parts
    → kept_parts kept parts ≡ reverse_onto parts kept
unfolding kept_parts reverse_onto
kept_parts-names [] kept h = refl
kept_parts-names (part ∷ parts) kept (name, names) =
    rw (plain_part part name.not_empty name.not_dot, not_climbing part name.not_dot_dot)
      (kept_parts-names parts (part ∷ kept) names)

reverse_onto-reverse_onto :
    (parts kept acc : List (List ℕ))
    → reverse_onto (reverse_onto parts kept) acc ≡ reverse_onto kept (parts ++ acc)
unfolding reverse_onto
reverse_onto-reverse_onto [] kept acc = refl
reverse_onto-reverse_onto (part ∷ parts) kept acc =
    reverse_onto-reverse_onto parts (part ∷ kept) acc

kept_in_order :
    (parts : List (List ℕ)) → All IsName parts → reverse_onto (kept_parts [] parts) [] ≡ parts
unfolding reverse_onto
kept_in_order parts names =
    ap (λ kept. reverse_onto kept []) (kept_parts-names parts [] names)
    ∙ (reverse_onto-reverse_onto parts [] [] ∙ append-nil parts)

-- `normpath` leaves a path of names as it is.
pub Named-normpath : (path : List ℕ) → Named path → normpath path ≡ path
unfolding normpath kept_parts reverse_onto split join
Named-normpath path (inl e) = subst (λ p. normpath p ≡ p) (sym e) refl
Named-normpath path (inr (first, rest, names, e)) =
    subst (λ p. normpath p ≡ p) (sym e)
      (ap (λ parts. text_of (reverse_onto (kept_parts [] parts) [])) (split-join first rest names)
        ∙ (ap text_of (kept_in_order (first ∷ rest) names)
            ∙ text_of-join first rest (names.0).not_empty))

join_empty : (first : List ℕ) (rest : List (List ℕ)) → first ≢ [] → join (first ∷ rest) ≢ []
unfolding join
join_empty [] rest h e = h refl
join_empty (c ∷ cs) [] h e = cc
join_empty (c ∷ cs) (next ∷ rest) h e = cc

join-relative :
    (first : List ℕ) (rest : List (List ℕ))
    → IsName first
    → starts_with_code b'/' (join (first ∷ rest)) ≡ false
unfolding starts_with_code join
join-relative [] rest name = absurd (name.not_empty refl)
join-relative (c ∷ cs) [] name = equals b'/' c (λ e. (name.one_part).0 (sym e))
join-relative (c ∷ cs) (next ∷ rest) name = equals b'/' c (λ e. (name.one_part).0 (sym e))

-- A path of names is relative.
pub Named-relative : (path : List ℕ) → Named path → starts_with_code b'/' path ≡ false
unfolding starts_with_code
Named-relative path (inl e) = ap (starts_with_code b'/') e
Named-relative path (inr (first, rest, names, e)) =
    ap (starts_with_code b'/') e ∙ join-relative first rest names.0

slash_second : (c : ℕ) (cs : List ℕ) → climbing (c ∷ (b'/' ∷ cs)) ≡ false
unfolding starts_with codes
slash_second c [] = ground arith
slash_second c (d ∷ cs) = ground arith

plain_third : (c d e : ℕ) (cs : List ℕ) → e ≢ b'/' → climbing (c ∷ (d ∷ (e ∷ cs))) ≡ false
unfolding starts_with codes
plain_third c d e cs h = ground arith

join-stays :
    (first : List ℕ) (rest : List (List ℕ)) → IsName first → climbing (join (first ∷ rest)) ≡ false
unfolding join starts_with codes
join-stays [] rest name = absurd (name.not_empty refl)
join-stays (c ∷ []) [] name = ground arith
join-stays (c ∷ []) (next ∷ rest) name = slash_second c (join (next ∷ rest))
join-stays (c ∷ (d ∷ [])) [] name =
    let up = not_climbing (c ∷ (d ∷ [])) name.not_dot_dot in ground (arith, up)
join-stays (c ∷ (d ∷ [])) (next ∷ rest) name =
    let up = not_climbing (c ∷ (d ∷ [])) name.not_dot_dot in ground (arith, up)
join-stays (c ∷ (d ∷ (e ∷ cs))) [] name = plain_third c d e cs (name.one_part).1.1.0
join-stays (c ∷ (d ∷ (e ∷ cs))) (next ∷ rest) name =
    plain_third c d e (cs ++ (b'/' ∷ join (next ∷ rest))) (name.one_part).1.1.0

-- A path of names does not climb.
pub Named-stays : (path : List ℕ) → Named path → climbing path ≡ false
unfolding starts_with codes
Named-stays path (inl e) = ap climbing e
Named-stays path (inr (first, rest, names, e)) = ap climbing e ∙ join-stays first rest names.0

-- A path of names is not empty.
pub Named-nonempty : (path : List ℕ) → Named path → path ≢ []
unfolding join
Named-nonempty path (inl e) empty = cc
Named-nonempty path (inr (first, rest, names, e)) empty =
    join_empty first rest (names.0).not_empty (sym e ∙ empty)
