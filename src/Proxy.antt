-- ===== src/Proxy.antt =====
-- internal/proxy/proxy.go: `mapPipelineError` and `extractBearerToken`, and the messages of
-- `Execute` (internal/daemon/pipeline.go) that the former reads.
pub mod Statuses
use pangreksa_aigateway.Prelude.{
  ℕ, ◌+◌, Bool, true, false, not, ◌||◌, ◌&&◌, List, [], ◌∷◌, ◌++◌, leb, if◌then◌else◌, Option, none,
  some, map,
}
use pangreksa_aigateway.Prelude.Texts.{Text, codes, text_eq, contains, cut, trim_space, replace_all}
use pangreksa_aigateway.Model.Format.{Format}

-- `fmt.Errorf("pipeline.Execute: <step>: %w", err)`
abbrev pub step_error : Text → Text → Text
step_error step e = codes "pipeline.Execute: " ++ (step ++ (codes ": " ++ e))

unfoldable pub map_pipeline_error : Format → Text → ℕ × Text
map_pipeline_error fmt msg =
    if contains msg (codes "rate limit") || contains msg (codes "too many requests")
    then (429, codes "{\"error\":\"rate limit exceeded\"}")
    else if contains msg (codes "budget exceeded") || contains msg (codes "budget limit")
    then (429, codes "{\"error\":\"budget limit exceeded\"}")
    else if contains msg (codes "blocked") || contains msg (codes "policy")
    then (403, codes "{\"error\":\"request blocked by policy\"}")
    else if contains msg (codes "entitlement") || contains msg (codes "unauthorized")
    then (401, codes "{\"error\":\"unauthorized\"}")
    else if contains msg (codes "circuit breaker")
    then (503, codes "{\"error\":\"provider unavailable\"}")
    else (
      502,
      codes "{\"error\":\"gateway error\",\"detail\":"
          ++ (fmt.quote (replace_all msg (codes "\"") (codes "'")) ++ codes "}"),
    )

-- Case folding of ASCII letters: no other character folds to a letter of "bearer".
abbrev lower : ℕ → ℕ
lower c = if leb b'A' c && leb c b'Z' then c + 32 else c

-- The part of `extractBearerToken` after the header is read.
unfoldable pub extract_bearer_token : Text → Text
extract_bearer_token auth = elim (cut b' ' auth) [
  | none ↦ []
  | some (scheme, token) ↦
      if not (text_eq (map lower scheme) (codes "bearer")) then [] else trim_space token
]
