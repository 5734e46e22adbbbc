-- ===== src/Prelude/Sort.antt =====
-- `sort.SliceStable` by an integer key: the stable sort of a list is one list, whatever the
-- algorithm, here by insertion.
use mathlib.Core.Path.{◌≡◌, refl, ap, ◌∙◌}
use mathlib.Core.List.{List, [], ◌∷◌, Perm}
use mathlib.Core.List.Perm
use mathlib.Core.Logic.{inl, inr}
use native.Mathlib.Omega.{arith}
use pangreksa_aigateway.Prelude.Tests.{if◌then◌else◌, Bool-cases}
use pangreksa_aigateway.Prelude.Lists.{All}
use pangreksa_aigateway.Prelude.Int.{ℤ, ltb_ℤ, eqb_ℤ, ◌≤ℤ◌}

module _ {A : Type 0} (key : A → ℤ) where
  insert_by : A → List A → List A
  insert_by x [] = x ∷ []
  insert_by x (y ∷ ys) = if ltb_ℤ (key y) (key x) then y ∷ insert_by x ys else x ∷ y ∷ ys

  unfoldable pub sort_by : List A → List A
  unfolding insert_by
  sort_by [] = []
  sort_by (x ∷ xs) = insert_by x (sort_by xs)

  abbrev pub IsSorted : List A → Type 0
  IsSorted [] = Unit {0}
  IsSorted (x ∷ xs) = All (λ y. key x ≤ℤ key y) xs × IsSorted xs

  -- The elements with one key, in the list's order.
  unfoldable pub with_key : ℤ → List A → List A
  with_key k [] = []
  with_key k (x ∷ xs) = let rest = with_key k xs in if eqb_ℤ (key x) k then x ∷ rest else rest

  All-insert_by :
      (b : ℤ) (x : A) (ys : List A)
      → b ≤ℤ key x
      → All (λ y. b ≤ℤ key y) ys
      → All (λ y. b ≤ℤ key y) (insert_by x ys)
  unfolding insert_by
  All-insert_by b x [] h a = (h, tt)
  All-insert_by b x (y ∷ ys) h a = ground (arith, All-insert_by b x ys h a.1)

  All-later : (a b : ℤ) (ys : List A) → a ≤ℤ b → All (λ y. b ≤ℤ key y) ys → All (λ y. a ≤ℤ key y) ys
  All-later a b [] h all = tt
  All-later a b (y ∷ ys) h all = (ground arith, All-later a b ys h all.1)

  insert_by-IsSorted : (x : A) (ys : List A) → IsSorted ys → IsSorted (insert_by x ys)
  unfolding insert_by
  insert_by-IsSorted x [] s = (tt, tt)
  insert_by-IsSorted x (y ∷ ys) s = elim (Bool-cases (ltb_ℤ (key y) (key x))) [
    | inl e ↦ rw e (All-insert_by (key y) x ys (ground arith) s.0, insert_by-IsSorted x ys s.1)
    | inr e ↦ rw e ((ground arith, All-later (key x) (key y) ys (ground arith) s.0), s)
  ]

  pub sort_by-IsSorted : (xs : List A) → IsSorted (sort_by xs)
  unfolding sort_by
  sort_by-IsSorted [] = tt
  sort_by-IsSorted (x ∷ xs) = insert_by-IsSorted x (sort_by xs) (sort_by-IsSorted xs)

  insert_by-perm : (x : A) (ys : List A) → Perm (insert_by x ys) (x ∷ ys)
  unfolding insert_by
  insert_by-perm x [] = Perm.refl (x ∷ [])
  insert_by-perm x (y ∷ ys) = elim (Bool-cases (ltb_ℤ (key y) (key x))) [
    | inl e ↦ rw e (Perm.trans (Perm.cons y (insert_by-perm x ys)) (Perm.swap x y ys))
    | inr e ↦ rw e (Perm.refl (x ∷ y ∷ ys))
  ]

  pub sort_by-perm : (xs : List A) → Perm (sort_by xs) xs
  unfolding sort_by
  sort_by-perm [] = Perm.refl []
  sort_by-perm (x ∷ xs) = Perm.trans (insert_by-perm x (sort_by xs)) (Perm.cons x (sort_by-perm xs))

  with_key-insert_by :
      (k : ℤ) (x : A) (ys : List A) → with_key k (insert_by x ys) ≡ with_key k (x ∷ ys)
  unfolding insert_by with_key
  with_key-insert_by k x [] = refl
  with_key-insert_by k x (y ∷ ys) = ground (arith, with_key-insert_by k x ys)

  -- Equal keys stay in their order.
  pub with_key-sort_by : (k : ℤ) (xs : List A) → with_key k (sort_by xs) ≡ with_key k xs
  unfolding sort_by with_key
  with_key-sort_by k [] = refl
  with_key-sort_by k (x ∷ xs) =
      with_key-insert_by k x (sort_by xs)
      ∙ ap (λ r. if eqb_ℤ (key x) k then x ∷ r else r) (with_key-sort_by k xs)

  All-insert_any : (P : A → Type 0) (x : A) (ys : List A) → P x → All P ys → All P (insert_by x ys)
  unfolding insert_by
  All-insert_any P x [] p all = (p, tt)
  All-insert_any P x (y ∷ ys) p all = elim (Bool-cases (ltb_ℤ (key y) (key x))) [
    | inl e ↦ rw e (all.0, All-insert_any P x ys p all.1)
    | inr e ↦ rw e (p, all)
  ]

  -- What holds of each element holds of each in the sorted list.
  pub All-sort_by : (P : A → Type 0) (xs : List A) → All P xs → All P (sort_by xs)
  unfolding sort_by
  All-sort_by P [] all = tt
  All-sort_by P (x ∷ xs) all = All-insert_any P x (sort_by xs) all.0 (All-sort_by P xs all.1)
