-- ===== src/Registry/Prompt.antt =====
-- internal/registry/prompt/prompt.go. `filepath.Match` is the argument `glob` (`none` for a
-- malformed pattern); `order` lists the map of variables in the order in which the code ranges
-- over it, which Go leaves open.
pub mod Access
use pangreksa_aigateway.Prelude.{
  ℕ, Bool, true, false, List, [], ◌∷◌, ◌++◌, if◌then◌else◌, Option, none, some, Result, ok, err,
  ◌>>=◌, map_err,
}
use pangreksa_aigateway.Prelude.Texts.{Text, codes, replace_all}
use pangreksa_aigateway.Prelude.Dict.{Dict, lookup, insert}
use pangreksa_aigateway.Model.Format.{Format}
use pangreksa_aigateway.Model.Config.{PromptConfig, GatewayConfig}
use pangreksa_aigateway.Model.Entitlement.{UserEntitlement}

pub record Registry : Type 0 where
  pub prompts : Dict PromptConfig

abbrev pub new_registry : Registry
new_registry = record { prompts = [] }

-- The loop of `Update`.
unfoldable pub index_prompts : Dict PromptConfig → List PromptConfig → Dict PromptConfig
index_prompts index [] = index
index_prompts index (p ∷ ps) = index_prompts (insert p.fqn p index) ps

unfoldable pub update : Registry → GatewayConfig → Registry
update r cfg = record { prompts = index_prompts [] cfg.registry.prompts }

abbrev pub Glob : Type 0
Glob = Text → Text → Option Bool

abbrev pub is_match : Option Bool → Bool
is_match none = false
is_match (some matched) = matched

unfoldable pub check_entitlement : Format → Glob → Text → List Text → Result (Unit {0})
check_entitlement fmt glob fqn [] = err (
    codes "prompt access denied by entitlement"
    ++ (codes ": fqn=" ++ (fmt.quote fqn ++ codes " not in allowed patterns")))
check_entitlement fmt glob fqn (pattern ∷ patterns) =
    let rest = check_entitlement fmt glob fqn patterns in
    if is_match (glob pattern fqn) then ok tt else rest

-- The loop over the required names.
unfoldable pub check_required : Format → List Text → Dict Text → Result (Unit {0})
check_required fmt [] vars = ok tt
check_required fmt (name ∷ names) vars =
    let rest = check_required fmt names vars in
    elim (lookup name vars) [
      | none ↦ err (codes "missing required template variable" ++ (codes ": " ++ fmt.quote name))
      | some _ ↦ rest
    ]

-- `"{{" + k + "}}"`
abbrev pub placeholder : Text → Text
placeholder k = codes "{{" ++ (k ++ codes "}}")

-- The loop over the variables.
unfoldable pub substitute : Text → List (Text × Text) → Text
substitute result [] = result
substitute result ((k, v) ∷ order) = substitute (replace_all result (placeholder k) v) order

unfoldable pub render_template :
    Format → Text → List Text → Dict Text → List (Text × Text) → Result Text
render_template fmt tmpl required vars order =
    check_required fmt required vars >>= λ _. ok (substitute tmpl order)

-- The part of `Resolve` after the entitlement check.
unfoldable pub resolve_allowed :
    Format → Registry → Text → Dict Text → List (Text × Text) → Result Text
resolve_allowed fmt r fqn vars order = elim (lookup fqn r.prompts) [
  | none ↦ err (codes "prompt.Resolve: fqn=" ++ (fmt.quote fqn ++ codes ": prompt not found"))
  | some pc ↦
      map_err (λ e. codes "prompt.Resolve: render: " ++ e)
        (render_template fmt pc.content pc.variables vars order)
]

-- The returned guardrail configurations are always nil and left out.
unfoldable pub resolve :
    {F : Type 0}
    → Format
    → Glob
    → Option Text
    → Registry
    → Text
    → Dict Text
    → List (Text × Text)
    → UserEntitlement F
    → Result Text
resolve fmt glob (some done) r fqn vars order ent = err (codes "prompt.Resolve: " ++ done)
resolve fmt glob none r fqn vars order ent =
    map_err (λ e. codes "prompt.Resolve: " ++ e)
      (check_entitlement fmt glob fqn ent.allowed_prompts)
    >>= λ _. resolve_allowed fmt r fqn vars order
