-- ===== src/Registry/Mcp.antt =====
-- internal/registry/mcp/mcp.go. `Allow` returns a result, an error, or both.
pub mod Whitelist
use pangreksa_aigateway.Prelude.{
  Bool, true, false, not, List, [], ◌∷◌, ◌++◌, if◌then◌else◌, Option, none, some,
}
use pangreksa_aigateway.Prelude.Texts.{Text, codes, text_eq}
use pangreksa_aigateway.Prelude.Dict.{Dict, lookup, insert}
use pangreksa_aigateway.Model.Format.{Format}
use pangreksa_aigateway.Model.Config.{McpTool, McpConfig, GatewayConfig}
use pangreksa_aigateway.Model.Entitlement.{UserEntitlement}
use pangreksa_aigateway.Registry.Patterns.{pattern_matches}

pub record AllowResult : Type 0 where
  pub allowed : Bool
  pub hitl_required : Bool
  pub tool : McpTool

abbrev pub no_tool : McpTool
no_tool = record { name = []; destructive = false; description = [] }

-- `&AllowResult{Allowed: false}`
abbrev pub denied : AllowResult
denied = record { allowed = false; hitl_required = false; tool = no_tool }

pub record Registry : Type 0 where
  pub servers : Dict McpConfig

abbrev pub new_registry : Registry
new_registry = record { servers = [] }

-- The loop of `Update`.
unfoldable pub index_mcps : Dict McpConfig → List McpConfig → Dict McpConfig
index_mcps index [] = index
index_mcps index (m ∷ ms) = index_mcps (insert m.name m index) ms

unfoldable pub update : Registry → GatewayConfig → Registry
update r cfg = record { servers = index_mcps [] cfg.registry.mcps }

unfoldable pub find_tool : List McpTool → Text → Option McpTool
find_tool [] name = none
find_tool (t ∷ ts) name =
    let rest = find_tool ts name in if text_eq t.name name then some t else rest

unfoldable pub is_mcp_allowed : Text → List Text → Bool
is_mcp_allowed name [] = false
is_mcp_allowed name (p ∷ ps) =
    let rest = is_mcp_allowed name ps in if pattern_matches p name then true else rest

-- Always nil, that is no error.
unfoldable pub stub_opa_check : {F : Type 0} → Text → Text → UserEntitlement F → Option Text
stub_opa_check _ _ _ = none

unfoldable pub allow :
    {F : Type 0}
    → Format
    → Option Text
    → Registry
    → Text
    → Text
    → UserEntitlement F
    → Option AllowResult × Option Text
allow fmt (some done) r mcp tool_name ent = (none, some (codes "mcp.Allow: " ++ done))
allow fmt none r mcp tool_name ent =
    if not (is_mcp_allowed mcp ent.allowed_mcps)
    then (some denied, some (codes "mcp.Allow: access denied to MCP server " ++ fmt.quote mcp))
    else elim (lookup mcp r.servers) [
      | none ↦ (some denied, some (codes "mcp.Allow: MCP server not found: " ++ fmt.quote mcp))
      | some server ↦ elim (find_tool server.tools tool_name) [
        | none ↦ (
          some denied,
          some (
              codes "mcp.Allow: tool not whitelisted: server="
              ++ (fmt.quote mcp ++ (codes " tool=" ++ fmt.quote tool_name))),
        )
        | some tool ↦ elim (stub_opa_check mcp tool_name ent) [
          | some e ↦ (some denied, some (codes "mcp.Allow: policy check: " ++ e))
          | none ↦ (
            some (record { allowed = true; hitl_required = tool.destructive; tool = tool }),
            none,
          )
        ]
      ]
    ]
