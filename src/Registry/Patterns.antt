-- ===== src/Registry/Patterns.antt =====
-- The pattern test of `isAllowed` (skill.go) and `isMCPAllowed` (mcp.go), whose bodies are the same.
use pangreksa_aigateway.Prelude.{
  ◌≡◌, ◌↔◌, ◌⊎◌, refl, ap, inl, inr, Bool, true, false, ◌&&◌, ◌||◌, [], ◌∷◌, ◌++◌, arith, ltb, ◌==◌,
  length, Bool-cases,
}
use pangreksa_aigateway.Prelude.Texts.{
  Text, codes, text_eq, text_eq_sound, text_eq_refl, has_prefix, has_prefix-append,
  has_prefix-split,
}

-- `p[:len(p)-1]`
unfoldable pub but_last : Text → Text
but_last [] = []
but_last (c ∷ []) = []
but_last (c ∷ d ∷ s) = c ∷ but_last (d ∷ s)

-- `p[len(p)-1] == '*'`
unfoldable pub ends_in_star : Text → Bool
ends_in_star [] = false
ends_in_star (c ∷ []) = c == b'*'
ends_in_star (c ∷ d ∷ s) = ends_in_star (d ∷ s)

unfoldable pub pattern_matches : Text → Text → Bool
pattern_matches p name =
    text_eq p (codes "*")
    || text_eq p name
    || (ltb 1 (length p) && ends_in_star p && has_prefix name (but_last p))

split_star : (p : Text) → ends_in_star p ≡ true → p ≡ but_last p ++ (b'*' ∷ [])
unfolding ends_in_star but_last
split_star [] h = cc
split_star (c ∷ []) h = ground arith
split_star (c ∷ d ∷ s) h = ap (◌∷◌ c) (split_star (d ∷ s) h)

snoc_star :
    (pre : Text)
    → (ends_in_star (pre ++ (b'*' ∷ [])) ≡ true) × (but_last (pre ++ (b'*' ∷ [])) ≡ pre)
unfolding ends_in_star but_last
snoc_star [] = (refl, refl)
snoc_star (c ∷ []) = (refl, refl)
snoc_star (c ∷ d ∷ s) = let (e, f) = snoc_star (d ∷ s) in (e, ap (◌∷◌ c) f)

-- A pattern is the name itself, or a beginning of it followed by a star.
abbrev pub Covers : Text → Text → Type 0
Covers p name =
    (p ≡ name) ⊎ ((pre : Text) × (rest : Text) × (p ≡ pre ++ (b'*' ∷ [])) × (name ≡ pre ++ rest))

Covers-of_matches : (p name : Text) → pattern_matches p name ≡ true → Covers p name
unfolding pattern_matches
Covers-of_matches p name h = elim (Bool-cases (text_eq p (codes "*"))) [
  | inl star ↦ inr ([], name, text_eq_sound p (codes "*") star, refl)
  | inr e ↦ elim (Bool-cases (text_eq p name)) [
    | inl same ↦ inl (text_eq_sound p name same)
    | inr f ↦
        let (rest, g) = has_prefix-split name (but_last p) (ground (arith, e, f, h)) in
        inr (but_last p, rest, split_star p (ground (arith, e, f, h)), g)
  ]
]

matches_of_prefix : (pre rest : Text) → pattern_matches (pre ++ (b'*' ∷ [])) (pre ++ rest) ≡ true
unfolding pattern_matches text_eq
matches_of_prefix [] rest = refl
matches_of_prefix (c ∷ pre) rest =
    let (star, cut) = snoc_star (c ∷ pre) in
    ground (arith, star, cut, has_prefix-append (c ∷ pre) rest, longer pre)
  where
    longer : (s : Text) → ltb 1 (length (c ∷ s ++ (b'*' ∷ []))) ≡ true
    longer [] = refl
    longer (d ∷ s) = ground arith

matches_of_Covers : (p name : Text) → Covers p name → pattern_matches p name ≡ true
unfolding pattern_matches
matches_of_Covers p name (inl same) = ground (arith, ap (text_eq p) same, text_eq_refl p)
matches_of_Covers p name (inr (pre, rest, e, f)) = rw (e, f) (matches_of_prefix pre rest)

-- A pattern matches a name exactly when it is the name, or ends in a star that stands for the rest
-- of the name; a star alone matches every name.
pub pattern_matches_iff : (p name : Text) → (pattern_matches p name ≡ true) ↔ Covers p name
pattern_matches_iff p name = (Covers-of_matches p name, matches_of_Covers p name)
