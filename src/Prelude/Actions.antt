-- ===== src/Prelude/Actions.antt =====
-- Methods that change a state and may fail: what was written before an error stays written.
use mathlib.Core.Path.{◌≡◌, refl, ◌∙◌}
use mathlib.Core.List.{List}
use Prim.Native.Nat.{ℕ}
use pangreksa_aigateway.Prelude.Errors.{Result, ok, err, map_err}

abbrev pub Action : Type 0 → Type 0 → Type 0
Action S A = S → Result A × S

pub map_err-ok :
    {A : Type 0} (f : List ℕ → List ℕ) (r : Result A) (a : A) → map_err f r ≡ ok a → r ≡ ok a
map_err-ok f (ok b) a h = h
map_err-ok f (err e) a h = cc

pub ok_injective : {A : Type 0} (a b : A) → ok a ≡ ok b → a ≡ b
ok_injective a b h = cc h

module _ {S : Type 0} where
  module _ {A B : Type 0} where
    abbrev pub continue : (A → Action S B) → Result A × S → Result B × S
    continue f (ok a, s) = f a s
    continue f (err e, s) = (err e, s)

    infixl 5 ◌>>=◌ ◌>>◌
    abbrev pub ◌>>=◌ : Action S A → (A → Action S B) → Action S B
    ◌>>=◌ m f s = continue f (m s)

    abbrev pub ◌>>◌ : Action S A → Action S B → Action S B
    m >> k = m >>= λ _. k

  module _ {A : Type 0} where
    abbrev pub pure : A → Action S A
    pure a s = (ok a, s)

    abbrev pub from_result : Result A → Action S A
    from_result r s = (r, s)

    -- The action leaves this view of the state as it is, on success and on error.
    abbrev pub Keeps {ℓ} : {V : Type ℓ} → (S → V) → Action S A → Type ℓ
    Keeps view m = (s : S) → view (m s).1 ≡ view s

    -- The action leaves this view of the state as it is if it fails.
    abbrev pub KeepsOnError {ℓ} : {V : Type ℓ} → (S → V) → Action S A → Type ℓ
    KeepsOnError view m = (s : S) (e : List ℕ) → (m s).0 ≡ err e → view (m s).1 ≡ view s

  module _ {A B : Type 0} where
    continue-ok :
        (f : A → Action S B) (r : Result A × S) (b : B)
        → (continue f r).0 ≡ ok b
        → (a : A) × (r.0 ≡ ok a) × ((f a r.1).0 ≡ ok b) × ((continue f r).1 ≡ (f a r.1).1)
    continue-ok f (ok a, s) b h = (a, refl, h, refl)
    continue-ok f (err e, s) b h = cc

    -- If a sequence succeeds, so did its parts.
    pub bind-ok :
        (m : Action S A) (f : A → Action S B) (s : S) (b : B)
        → ((m >>= f) s).0 ≡ ok b
        → (a : A) × ((m s).0 ≡ ok a)
          × ((f a (m s).1).0 ≡ ok b)
          × (((m >>= f) s).1 ≡ (f a (m s).1).1)
    bind-ok m f s b h = continue-ok f (m s) b h

    -- If the first part fails, the second does not run; else it runs on what the first returns.
    pub bind-err :
        (m : Action S A) (f : A → Action S B) (s : S) (e : List ℕ)
        → (m s).0 ≡ err e
        → ((m >>= f) s).1 ≡ (m s).1
    bind-err m f s e h = rw (h, ◌>>=◌)

    pub bind-after :
        (m : Action S A) (f : A → Action S B) (s : S) (a : A)
        → (m s).0 ≡ ok a
        → (m >>= f) s ≡ f a (m s).1
    bind-after m f s a h = rw (h, ◌>>=◌)

    continue-view {ℓ} :
        {V : Type ℓ} (view : S → V) (f : A → Action S B) (r : Result A × S)
        → ((a : A) → Keeps view (f a))
        → view (continue f r).1 ≡ view r.1
    continue-view view f (ok a, s) k = k a s
    continue-view view f (err e, s) k = refl

    pub bind-Keeps {ℓ} :
        {V : Type ℓ} (view : S → V) (m : Action S A) (f : A → Action S B)
        → Keeps view m
        → ((a : A) → Keeps view (f a))
        → Keeps view (m >>= f)
    bind-Keeps view m f h k s = continue-view view f (m s) k ∙ h s

    continue-view_on_error {ℓ} :
        {V : Type ℓ} (view : S → V) (f : A → Action S B) (r : Result A × S) (e : List ℕ)
        → ((a : A) → KeepsOnError view (f a))
        → (continue f r).0 ≡ err e
        → view (continue f r).1 ≡ view r.1
    continue-view_on_error view f (ok a, s) e k h = k a s e h
    continue-view_on_error view f (err d, s) e k h = refl

    pub bind-KeepsOnError {ℓ} :
        {V : Type ℓ} (view : S → V) (m : Action S A) (f : A → Action S B)
        → Keeps view m
        → ((a : A) → KeepsOnError view (f a))
        → KeepsOnError view (m >>= f)
    bind-KeepsOnError view m f h k s e failed = continue-view_on_error view f (m s) e k failed ∙ h s
