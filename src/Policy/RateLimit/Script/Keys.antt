-- ===== src/Policy/RateLimit/Script/Keys.antt =====
-- The script's keys tell prefixes and buckets apart.
use pangreksa_aigateway.Prelude.{ℕ, ◌^◌, ◌<◌, ◌≡◌, ◌≢◌, refl, [], ◌∷◌, ◌++◌, arith, All}
use pangreksa_aigateway.Prelude.Texts.{Text}
use pangreksa_aigateway.Policy.RateLimit.Counters.{Counters}
use pangreksa_aigateway.Policy.RateLimit.Script.{bucket_key}

no_colon : (x y q : Text) → All (λ c. c ≢ b':') x → x ≢ q ++ (b':' ∷ y)
no_colon [] y [] a e = cc
no_colon [] y (c ∷ q) a e = cc
no_colon (d ∷ x) y [] a e = a.0 (ground arith)
no_colon (d ∷ x) y (c ∷ q) a e = no_colon x y q a.1 (ground arith)

last_colon :
    (p q x y : Text)
    → All (λ c. c ≢ b':') x
    → All (λ c. c ≢ b':') y
    → p ++ (b':' ∷ x) ≡ q ++ (b':' ∷ y)
    → (p ≡ q) × (x ≡ y)
last_colon [] [] x y a b e = (refl, ground arith)
last_colon [] (c ∷ q) x y a b e = absurd (no_colon x y q a (ground arith))
last_colon (c ∷ p) [] x y a b e = absurd (no_colon y x p b (ground arith))
last_colon (c ∷ p) (d ∷ q) x y a b e =
    let (same, rest) = last_colon p q x y a b (ground arith) in (ground arith, rest)

pub bucket_key_injective :
    (r : Counters) (p q : Text) (m n : ℕ)
    → m < 10 ^ 14
    → n < 10 ^ 14
    → bucket_key r p m ≡ bucket_key r q n
    → (p ≡ q) × (m ≡ n)
unfolding bucket_key
bucket_key_injective r p q m n hm hn e =
    let (same, text) = last_colon p q _ _ (r.number_text_digits m) (r.number_text_digits n) e in
    (same, r.number_text_injective m n hm hn text)
