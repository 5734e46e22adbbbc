-- ===== src/Prelude/Replacing.antt =====
-- What `strings.ReplaceAll` gives, said apart from the way in which it is computed.
use Prim.Native.Nat.{ℕ, zero, suc, ◌-◌, ◌≤◌}
use mathlib.Core.Path.{◌≡◌, refl, ap, ◌∙◌}
use mathlib.Core.Logic.{inl, inr}
use mathlib.Core.Bool.{false}
use mathlib.Core.List.{[], ◌∷◌, ◌++◌}
use native.Mathlib.Omega.{arith}
use pangreksa_aigateway.Prelude.Tests.{Bool-cases}
use pangreksa_aigateway.Prelude.Lists.{length, length-append}
use pangreksa_aigateway.Prelude.Texts.{
  Text, has_prefix, has_prefix-append, has_prefix-split, replace_from, replace_all,
}

-- The second text is the first with every occurrence of the pattern, read from the left and not
-- overlapping, replaced by the value.
pub data Replaced (pattern value : Text) : Text → Text → Type 0 where
  empty : Replaced pattern value [] []
  hit :
      {rest out s t : Text}
      → Replaced pattern value rest out
      → s ≡ pattern ++ rest
      → t ≡ value ++ out
      → Replaced pattern value s t
  miss :
      {c : ℕ} {s out : Text}
      → has_prefix (c ∷ s) pattern ≡ false
      → Replaced pattern value s out
      → Replaced pattern value (c ∷ s) (c ∷ out)

replace-skip :
    (old new q rest : Text)
    → replace_from old new (length q) (q ++ rest) ≡ replace_from old new 0 rest
unfolding replace_from
replace-skip old new [] rest = refl
replace-skip old new (x ∷ q) rest = replace-skip old new q rest

module _ (x : ℕ) (p new : Text) where
  replace-hit :
      (rest : Text)
      → replace_from (x ∷ p) new 0 (x ∷ p ++ rest) ≡ new ++ replace_from (x ∷ p) new 0 rest
  unfolding replace_from
  replace-hit rest =
      let one : length (x ∷ p) - 1 ≡ length p = omega arith in
      rw (has_prefix-append (x ∷ p) rest, one, replace-skip (x ∷ p) new p rest)

  replaced-eq : {s t : Text} → Replaced (x ∷ p) new s t → replace_from (x ∷ p) new 0 s ≡ t
  unfolding replace_from
  replaced-eq empty = refl
  replaced-eq (hit {rest = rest} r e f) = rw (e, replace-hit rest, replaced-eq r, f)
  replaced-eq (miss {c = c} h r) = rw h (ap (◌∷◌ c) (replaced-eq r))

  replaced_upto :
      (n : ℕ) (s : Text) → length s ≤ n → Replaced (x ∷ p) new s (replace_from (x ∷ p) new 0 s)
  unfolding replace_from
  replaced_upto n [] h = empty
  replaced_upto zero (c ∷ s) h = absurd (omega arith)
  replaced_upto (suc n) (c ∷ s) h = elim (Bool-cases (has_prefix (c ∷ s) (x ∷ p))) [
    | inr other ↦ rw other (miss other (replaced_upto n s (omega arith)))
    | inl found ↦
        let (rest, e) = has_prefix-split (c ∷ s) (x ∷ p) found in
        let shorter : length rest ≤ n = omega (arith, ap length e, length-append (x ∷ p) rest) in
        hit (replaced_upto n rest shorter) e (ap (replace_from (x ∷ p) new 0) e ∙ replace-hit rest)
  ]

  -- For a pattern that is not empty.
  pub replace_all-Replaced : (s : Text) → Replaced (x ∷ p) new s (replace_all s (x ∷ p) new)
  unfolding replace_all
  replace_all-Replaced s = replaced_upto (length s) s (omega arith)

  pub Replaced-replace_all : {s t : Text} → Replaced (x ∷ p) new s t → replace_all s (x ∷ p) new ≡ t
  unfolding replace_all
  Replaced-replace_all r = replaced-eq r
