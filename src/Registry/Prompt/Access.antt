-- ===== src/Registry/Prompt/Access.antt =====
-- prompt.go: who gets a prompt, and which.
use pangreksa_aigateway.Prelude.{
  ◌≡◌, ◌↔◌, refl, true, List, [], ◌∷◌, if◌then◌else◌, inl, inr, Option-cases, Option, none, some,
  ok, Result-cases, any, All, arith, ap, sym, ◌∙◌, ◌++◌,
}
use pangreksa_aigateway.Prelude.Texts.{Text, codes, text_eq, replace_all}
use pangreksa_aigateway.Prelude.Replacing.{Replaced, replace_all-Replaced, Replaced-replace_all}
use mathlib.Core.Path.{subst}
use pangreksa_aigateway.Prelude.Dict.{Dict, lookup, insert, lookup-insert}
use pangreksa_aigateway.Model.Format.{Format}
use pangreksa_aigateway.Model.Config.{PromptConfig, GatewayConfig}
use pangreksa_aigateway.Model.Entitlement.{UserEntitlement}
use pangreksa_aigateway.Registry.Prompt.{
  Registry, index_prompts, update, Glob, is_match, check_entitlement, check_required, placeholder,
  substitute, render_template, resolve_allowed, resolve,
}

-- The last prompt of a configuration with this name.
unfoldable pub last_named : Text → Option PromptConfig → List PromptConfig → Option PromptConfig
last_named fqn found [] = found
last_named fqn found (p ∷ ps) = last_named fqn (if text_eq p.fqn fqn then some p else found) ps

lookup-index_prompts :
    (fqn : Text) (index : Dict PromptConfig) (ps : List PromptConfig)
    → lookup fqn (index_prompts index ps) ≡ last_named fqn (lookup fqn index) ps
unfolding index_prompts last_named
lookup-index_prompts fqn index [] = refl
lookup-index_prompts fqn index (p ∷ ps) =
    lookup-index_prompts fqn (insert p.fqn p index) ps
    ∙ ap (λ found. last_named fqn found ps) (lookup-insert p.fqn fqn p index)

-- After `Update` a name stands for the last prompt of the new configuration that has it, and for
-- none that only an older configuration had.
pub lookup-update :
    (r : Registry) (cfg : GatewayConfig) (fqn : Text)
    → lookup fqn (update r cfg).prompts ≡ last_named fqn none cfg.registry.prompts
unfolding update lookup
lookup-update r cfg fqn = lookup-index_prompts fqn [] cfg.registry.prompts

check_entitlement_iff :
    (fmt : Format) (glob : Glob) (fqn : Text) (patterns : List Text)
    → (check_entitlement fmt glob fqn patterns ≡ ok tt)
      ↔ (any (λ p. is_match (glob p fqn)) patterns ≡ true)
unfolding check_entitlement
check_entitlement_iff fmt glob fqn [] = (λ h. cc, λ h. cc)
check_entitlement_iff fmt glob fqn (p ∷ ps) = ground (arith, check_entitlement_iff fmt glob fqn ps)

-- A value for each required name.
abbrev pub HasAll : Dict Text → List Text → Type 0
HasAll vars names = All (λ name. (v : Text) × (lookup name vars ≡ some v)) names

check_required-HasAll :
    (fmt : Format) (names : List Text) (vars : Dict Text)
    → check_required fmt names vars ≡ ok tt
    → HasAll vars names
unfolding check_required
check_required-HasAll fmt [] vars h = tt
check_required-HasAll fmt (name ∷ names) vars h = elim (Option-cases (lookup name vars)) [
  | inl e ↦ ground (arith, e)
  | inr (v, e) ↦ ((v, e), check_required-HasAll fmt names vars (ground (arith, e)))
]

HasAll-check_required :
    (fmt : Format) (names : List Text) (vars : Dict Text)
    → HasAll vars names
    → check_required fmt names vars ≡ ok tt
unfolding check_required
HasAll-check_required fmt [] vars h = refl
HasAll-check_required fmt (name ∷ names) vars h =
    rw (h.0.1, check_required) (HasAll-check_required fmt names vars h.1)

-- The second text is the first with {{name}} replaced by the name's value, for one variable after
-- another.
pub data Filled : Text → List (Text × Text) → Text → Type 0 where
  full : {s : Text} → Filled s [] s
  fill :
      {k v s t u : Text} {order : List (Text × Text)}
      → Replaced (codes "{{" ++ (k ++ codes "}}")) v s t
      → Filled t order u
      → Filled s ((k, v) ∷ order) u

substitute-Filled : (s : Text) (order : List (Text × Text)) → Filled s order (substitute s order)
unfolding substitute
substitute-Filled s [] = full
substitute-Filled s ((k, v) ∷ order) =
    fill (replace_all-Replaced b'{' (b'{' ∷ (k ++ codes "}}")) v s)
      (substitute-Filled (replace_all s (placeholder k) v) order)

Filled-substitute :
    {s u : Text} {order : List (Text × Text)} → Filled s order u → u ≡ substitute s order
unfolding substitute
Filled-substitute full = refl
Filled-substitute (fill {k = k} {v = v} {order = order} r f) =
    Filled-substitute f
    ∙ ap (λ t. substitute t order) (sym (Replaced-replace_all b'{' (b'{' ∷ (k ++ codes "}}")) v r))

-- What has to hold for a prompt's text to come out.
pub record Granted {F : Type 0} (glob : Glob) (r : Registry) (fqn : Text) (vars : Dict Text)
    (order : List (Text × Text)) (ent : UserEntitlement F) (content : Text) : Type 0 where
  pub allowed : any (λ p. is_match (glob p fqn)) ent.allowed_prompts ≡ true
  pub prompt : PromptConfig
  pub registered : lookup fqn r.prompts ≡ some prompt
  pub supplied : HasAll vars prompt.variables
  pub rendered : Filled prompt.content order content

Granted-of_ok :
    {F : Type 0} (fmt : Format) (glob : Glob) (r : Registry) (fqn : Text) (vars : Dict Text)
    (order : List (Text × Text)) (ent : UserEntitlement F) (content : Text)
    → resolve fmt glob none r fqn vars order ent ≡ ok content
    → Granted glob r fqn vars order ent content
unfolding resolve resolve_allowed render_template
Granted-of_ok fmt glob r fqn vars order ent content h =
    elim (Result-cases (check_entitlement fmt glob fqn ent.allowed_prompts)) [
      | inr (m, e) ↦ ground (arith, e)
      | inl (u, e) ↦ elim (Option-cases (lookup fqn r.prompts)) [
        | inl missing ↦ ground (arith, e, missing)
        | inr (pc, found) ↦ elim (Result-cases (check_required fmt pc.variables vars)) [
          | inr (m, g) ↦ ground (arith, e, found, g)
          | inl (v, g) ↦ record {
            allowed = (check_entitlement_iff fmt glob fqn ent.allowed_prompts).0 e;
            prompt = pc;
            registered = found;
            supplied = check_required-HasAll fmt pc.variables vars g;
            rendered =
                subst (Filled pc.content order) (ground (arith, e, found, g))
                  (substitute-Filled pc.content order);
          }
        ]
      ]
    ]

ok_of_Granted :
    {F : Type 0} (fmt : Format) (glob : Glob) (r : Registry) (fqn : Text) (vars : Dict Text)
    (order : List (Text × Text)) (ent : UserEntitlement F) (content : Text)
    → Granted glob r fqn vars order ent content
    → resolve fmt glob none r fqn vars order ent ≡ ok content
unfolding resolve resolve_allowed render_template
ok_of_Granted fmt glob r fqn vars order ent content g = rw (
  (check_entitlement_iff fmt glob fqn ent.allowed_prompts).1 g.allowed,
  resolve_allowed,
  g.registered,
  render_template,
  HasAll-check_required fmt g.prompt.variables vars g.supplied,
  Filled-substitute g.rendered,
)

-- While the context is live, `Resolve` returns a text exactly if some allowed pattern of the user
-- matches the name, the registry has a prompt of this name, and every variable that the prompt
-- requires has a value; and the text is the prompt's in which each {{name}} of a variable is
-- replaced by its value, one variable after another in the order of the range over the map.
pub resolve-Granted :
    {F : Type 0} (fmt : Format) (glob : Glob) (r : Registry) (fqn : Text) (vars : Dict Text)
    (order : List (Text × Text)) (ent : UserEntitlement F) (content : Text)
    → (resolve fmt glob none r fqn vars order ent ≡ ok content)
      ↔ Granted glob r fqn vars order ent content
resolve-Granted fmt glob r fqn vars order ent content = (
  Granted-of_ok fmt glob r fqn vars order ent content,
  ok_of_Granted fmt glob r fqn vars order ent content,
)
