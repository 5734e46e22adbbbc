-- ===== src/Prelude/Lists.antt =====
-- Lists over the native numbers: length, and predicates by recursion.
use Prim.Native.Nat.{ℕ, suc, ◌+◌}
use mathlib.Core.Path.{◌≡◌}
use mathlib.Core.Bool.{Bool, true, false, ◌||◌, ◌&&◌}
use mathlib.Core.List.{List, [], ◌∷◌, ◌++◌}
use native.Mathlib.Omega.{arith}

module _ {ℓ} {A : Type ℓ} where
  abbrev pub length : List A → ℕ
  length [] = 0
  length (x ∷ xs) = suc (length xs)

  pub length-append : (xs ys : List A) → length (xs ++ ys) ≡ length xs + length ys
  length-append [] ys = omega arith
  length-append (x ∷ xs) ys = omega (arith, length-append xs ys)

  abbrev pub any : (A → Bool) → List A → Bool
  any p [] = false
  any p (x ∷ xs) = p x || any p xs

  abbrev pub all : (A → Bool) → List A → Bool
  all p [] = true
  all p (x ∷ xs) = p x && all p xs

  abbrev pub All {κ} : (A → Type κ) → List A → Type κ
  All P [] = Unit
  All P (x ∷ xs) = P x × All P xs

  -- The first list is the second with some elements left out.
  pub data Sublist : List A → List A → Type ℓ where
    done : Sublist [] []
    keep : {x : A} {xs ys : List A} → Sublist xs ys → Sublist (x ∷ xs) (x ∷ ys)
    skip : {y : A} {xs ys : List A} → Sublist xs ys → Sublist xs (y ∷ ys)

  pub Sublist-snoc :
      (x : A) {xs ys : List A} → Sublist xs ys → Sublist (xs ++ x ∷ []) (ys ++ x ∷ [])
  Sublist-snoc x done = keep done
  Sublist-snoc x (keep s) = keep (Sublist-snoc x s)
  Sublist-snoc x (skip s) = skip (Sublist-snoc x s)

  pub Sublist-skip_last : (y : A) {xs ys : List A} → Sublist xs ys → Sublist xs (ys ++ y ∷ [])
  Sublist-skip_last y done = skip done
  Sublist-skip_last y (keep s) = keep (Sublist-skip_last y s)
  Sublist-skip_last y (skip s) = skip (Sublist-skip_last y s)
