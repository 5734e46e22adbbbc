-- ===== src/Registry/Mcp/Whitelist.antt =====
-- mcp.go: when a tool may be called.
use mathlib.Core.Path.{subst}
use pangreksa_aigateway.Prelude.{
  ◌≡◌, ◌↔◌, ◌⊎◌, ap, ◌∙◌, true, false, List, [], ◌∷◌, none, some, arith, inl, inr, Bool-cases,
  Option-cases,
}
use pangreksa_aigateway.Prelude.Texts.{Text, text_eq, text_eq_sound, text_eq_refl}
use pangreksa_aigateway.Prelude.Dict.{lookup}
use pangreksa_aigateway.Model.Format.{Format}
use pangreksa_aigateway.Model.Config.{McpTool, McpConfig}
use pangreksa_aigateway.Model.Entitlement.{UserEntitlement}
use pangreksa_aigateway.Registry.Patterns.{pattern_matches, Covers, pattern_matches_iff}
use pangreksa_aigateway.Registry.Mcp.{
  AllowResult, Registry, find_tool, is_mcp_allowed, stub_opa_check, allow,
}

-- The tool is one of the whitelist, and the first of its name.
pub data Finds (name : Text) : List McpTool → McpTool → Type 0 where
  here : {t : McpTool} {ts : List McpTool} → t.name ≡ name → Finds name (t ∷ ts) t
  there :
      {t u : McpTool} {ts : List McpTool}
      → text_eq t.name name ≡ false
      → Finds name ts u
      → Finds name (t ∷ ts) u

find_tool-Finds :
    (ts : List McpTool) (name : Text) (u : McpTool) → find_tool ts name ≡ some u → Finds name ts u
unfolding find_tool
find_tool-Finds [] name u h = cc
find_tool-Finds (t ∷ ts) name u h = elim (Bool-cases (text_eq t.name name)) [
  | inl e ↦
      let same : t ≡ u = ground (arith, e) in
      subst (Finds name (t ∷ ts)) same (here (text_eq_sound t.name name e))
  | inr e ↦ there e (find_tool-Finds ts name u (ground (arith, e)))
]

Finds-find_tool :
    (ts : List McpTool) (name : Text) (u : McpTool) → Finds name ts u → find_tool ts name ≡ some u
unfolding find_tool
Finds-find_tool [] name u f = elim f [ ]
Finds-find_tool (t ∷ ts) name u (here e) = rw (ap (λ n. text_eq n name) e ∙ text_eq_refl name)
Finds-find_tool (t ∷ ts) name u (there e f) = rw e (Finds-find_tool ts name u f)

-- Some pattern of the list is the name, or a beginning of it followed by a star.
abbrev pub AnyCovers : Text → List Text → Type 0
AnyCovers name [] = ⊥
AnyCovers name (p ∷ ps) = Covers p name ⊎ AnyCovers name ps

AnyCovers-of_allowed :
    (name : Text) (ps : List Text) → is_mcp_allowed name ps ≡ true → AnyCovers name ps
unfolding is_mcp_allowed
AnyCovers-of_allowed name [] h = cc
AnyCovers-of_allowed name (p ∷ ps) h = elim (Bool-cases (pattern_matches p name)) [
  | inl e ↦ inl ((pattern_matches_iff p name).0 e)
  | inr e ↦ inr (AnyCovers-of_allowed name ps (ground (arith, e)))
]

allowed_of_AnyCovers :
    (name : Text) (ps : List Text) → AnyCovers name ps → is_mcp_allowed name ps ≡ true
unfolding is_mcp_allowed
allowed_of_AnyCovers name [] c = absurd c
allowed_of_AnyCovers name (p ∷ ps) (inl c) = rw ((pattern_matches_iff p name).1 c)
allowed_of_AnyCovers name (p ∷ ps) (inr c) = ground (arith, allowed_of_AnyCovers name ps c)

-- What has to hold for a tool call to be permitted, and with which result.
pub record Permits {F : Type 0} (r : Registry) (mcp tool_name : Text) (ent : UserEntitlement F)
    (result : AllowResult) : Type 0 where
  pub covered : AnyCovers mcp ent.allowed_mcps
  pub server : McpConfig
  pub registered : lookup mcp r.servers ≡ some server
  pub tool : McpTool
  pub listed : Finds tool_name server.tools tool
  pub outcome : result ≡ record { allowed = true; hitl_required = tool.destructive; tool = tool }

Permits-of_allow :
    {F : Type 0} (fmt : Format) (r : Registry) (mcp tool_name : Text) (ent : UserEntitlement F)
    (result : AllowResult)
    → allow fmt none r mcp tool_name ent ≡ (some result, none)
    → Permits r mcp tool_name ent result
unfolding allow stub_opa_check
Permits-of_allow fmt r mcp tool_name ent result h =
    elim (Bool-cases (is_mcp_allowed mcp ent.allowed_mcps)) [
      | inr e ↦ ground (arith, e)
      | inl e ↦ elim (Option-cases (lookup mcp r.servers)) [
        | inl missing ↦ ground (arith, e, missing)
        | inr (server, found) ↦ elim (Option-cases (find_tool server.tools tool_name)) [
          | inl absent ↦ ground (arith, e, found, absent)
          | inr (tool, g) ↦ record {
            covered = AnyCovers-of_allowed mcp ent.allowed_mcps e;
            server = server;
            registered = found;
            tool = tool;
            listed = find_tool-Finds server.tools tool_name tool g;
            outcome = ground (arith, e, found, g);
          }
        ]
      ]
    ]

allow_of_Permits :
    {F : Type 0} (fmt : Format) (r : Registry) (mcp tool_name : Text) (ent : UserEntitlement F)
    (result : AllowResult)
    → Permits r mcp tool_name ent result
    → allow fmt none r mcp tool_name ent ≡ (some result, none)
unfolding allow stub_opa_check
allow_of_Permits fmt r mcp tool_name ent result p = rw (
  allowed_of_AnyCovers mcp ent.allowed_mcps p.covered,
  p.registered,
  Finds-find_tool p.server.tools tool_name p.tool p.listed,
  p.outcome,
)

-- While the context is live, `Allow` permits a tool call, with no error, exactly if a pattern of
-- the user is the server's name or a beginning of it followed by a star, the server is registered, and its whitelist has the tool; then the
-- result names the first entry of this name, and asks for human approval exactly if that entry is
-- destructive.
pub allow-Permits :
    {F : Type 0} (fmt : Format) (r : Registry) (mcp tool_name : Text) (ent : UserEntitlement F)
    (result : AllowResult)
    → (allow fmt none r mcp tool_name ent ≡ (some result, none))
      ↔ Permits r mcp tool_name ent result
allow-Permits fmt r mcp tool_name ent result = (
  Permits-of_allow fmt r mcp tool_name ent result,
  allow_of_Permits fmt r mcp tool_name ent result,
)
