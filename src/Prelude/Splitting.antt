-- ===== src/Prelude/Splitting.antt =====
-- What `split` gives on texts that were joined, and the text behind its parts.
use Prim.Native.Nat.{ℕ}
use mathlib.Core.Path.{◌≡◌, refl, sym, ap, ◌∙◌}
use mathlib.Core.Logic.{◌≢◌, inl, inr}
use mathlib.Core.List.{List, [], ◌∷◌, ◌++◌}
use native.Mathlib.Omega.{arith}
use pangreksa_aigateway.Prelude.Tests.{◌==◌, Bool-cases}
use pangreksa_aigateway.Prelude.Lists.{All}
use pangreksa_aigateway.Prelude.Texts.{Text, prepend_first, split}

-- The parts with the separator between them.
abbrev pub join : ℕ → List Text → Text
join sep [] = []
join sep (p ∷ []) = p
join sep (p ∷ q ∷ ps) = p ++ sep ∷ join sep (q ∷ ps)

abbrev pub Lacks : ℕ → Text → Type 0
Lacks sep s = All (λ c. c ≢ sep) s

module _ (sep : ℕ) where
  pub split-free : (s : Text) → Lacks sep s → split sep s ≡ s ∷ []
  unfolding split
  split-free [] h = refl
  split-free (c ∷ s) h = ground (arith, split-free s h.1, h.0)

  pub split-append :
      (s rest : Text) → Lacks sep s → split sep (s ++ sep ∷ rest) ≡ s ∷ split sep rest
  unfolding split
  split-append [] rest h = ground arith
  split-append (c ∷ s) rest h = ground (arith, split-append s rest h.1, h.0)

  join-prepend_first :
      (c : ℕ) (p : Text) (ps : List Text)
      → join sep (prepend_first c (p ∷ ps)) ≡ c ∷ join sep (p ∷ ps)
  join-prepend_first c p [] = refl
  join-prepend_first c p (q ∷ ps) = refl

  split-some : (s : Text) → (p : Text) × (ps : List Text) × (split sep s ≡ p ∷ ps)
  unfolding split
  split-some [] = ([], [], refl)
  split-some (c ∷ s) =
      let (p, ps, e) = split-some s in
      elim (Bool-cases (c == sep)) [
        | inl at_sep ↦ ([], split sep s, rw at_sep)
        | inr other ↦ (c ∷ p, ps, rw (other, e))
      ]

  pub join-split : (s : Text) → join sep (split sep s) ≡ s
  unfolding split
  join-split [] = refl
  join-split (c ∷ s) =
      let (p, ps, e) = split-some s in
      elim (Bool-cases (c == sep)) [
        | inl at_sep ↦ rw at_sep (
            ap (λ (l : List Text). join sep ([] ∷ l)) e
            ∙ ap (λ (t : Text). sep ∷ t) (ap (join sep) (sym e) ∙ join-split s)
            ∙ ap (λ (d : ℕ). d ∷ s) (ground arith))
        | inr other ↦ rw other (
            ap (λ (l : List Text). join sep (prepend_first c l)) e
            ∙ join-prepend_first c p ps
            ∙ ap (λ (t : Text). c ∷ t) (ap (join sep) (sym e) ∙ join-split s))
      ]
