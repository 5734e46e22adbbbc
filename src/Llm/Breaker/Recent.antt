-- ===== src/Llm/Breaker/Recent.antt =====
-- circuitbreaker.go: what the pruning of old failures keeps.
use pangreksa_aigateway.Prelude.{
  ℕ, ◌+◌, ◌≤◌, ◌≡◌, refl, List, [], ◌∷◌, ◌++◌, arith, leb, if◌then◌else◌, All,
}
use pangreksa_aigateway.Llm.Breaker.{prune_failures, observation_window}

-- The failures of a history that are no older than the window.
pub recent : ℕ → List ℕ → List ℕ
recent now [] = []
recent now (f ∷ fs) =
    let rest = recent now fs in if leb now (f + observation_window) then f ∷ rest else rest

-- Ascending, and none after `t`.
abbrev pub IsAscending : ℕ → List ℕ → Type 0
IsAscending t [] = Unit {0}
IsAscending t (f ∷ fs) = (f ≤ t) × All (λ g. f ≤ g) fs × IsAscending t fs

pub recent-All :
    (now f : ℕ) (fs : List ℕ)
    → now ≤ f + observation_window
    → All (λ g. f ≤ g) fs
    → recent now fs ≡ fs
unfolding recent
recent-All now f [] h a = refl
recent-All now f (g ∷ fs) h a = ground (arith, recent-All now f fs h a.1)

-- The scan from the front, which stops at the first failure inside the window, keeps the same
-- failures as testing each one.
pub prune_failures-recent :
    (now t : ℕ) (fs : List ℕ) → IsAscending t fs → prune_failures fs now ≡ recent now fs
unfolding prune_failures recent
prune_failures-recent now t [] a = refl
prune_failures-recent now t (f ∷ fs) a =
    ground (arith, recent-All now f fs, prune_failures-recent now t fs a.2)

-- What is out of the window stays out.
pub recent-recent : (t now : ℕ) (fs : List ℕ) → t ≤ now → recent now (recent t fs) ≡ recent now fs
unfolding recent
recent-recent t now [] h = refl
recent-recent t now (f ∷ fs) h = ground (arith, recent-recent t now fs h)

pub recent-append :
    (now : ℕ) (xs ys : List ℕ) → recent now (xs ++ ys) ≡ recent now xs ++ recent now ys
unfolding recent
recent-append now [] ys = refl
recent-append now (x ∷ xs) ys = ground (arith, recent-append now xs ys)

pub All-recent : (now b : ℕ) (fs : List ℕ) → All (λ g. b ≤ g) fs → All (λ g. b ≤ g) (recent now fs)
unfolding recent
All-recent now b [] a = tt
All-recent now b (f ∷ fs) a = ground (arith, All-recent now b fs a.1)

pub recent-IsAscending :
    (now t : ℕ) (fs : List ℕ) → IsAscending t fs → IsAscending t (recent now fs)
unfolding recent
recent-IsAscending now t [] a = tt
recent-IsAscending now t (f ∷ fs) a =
    ground (arith, All-recent now f fs a.1, recent-IsAscending now t fs a.2)

All-snoc :
    (b now : ℕ) (fs : List ℕ) → b ≤ now → All (λ g. b ≤ g) fs → All (λ g. b ≤ g) (fs ++ now ∷ [])
All-snoc b now [] h a = (h, tt)
All-snoc b now (f ∷ fs) h a = (a.0, All-snoc b now fs h a.1)

pub snoc-IsAscending :
    (t now : ℕ) (fs : List ℕ) → t ≤ now → IsAscending t fs → IsAscending now (fs ++ now ∷ [])
snoc-IsAscending t now [] h a = (omega arith, tt, tt)
snoc-IsAscending t now (f ∷ fs) h a =
    (omega arith, All-snoc f now fs (omega arith) a.1, snoc-IsAscending t now fs h a.2)
