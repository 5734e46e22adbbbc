-- ===== src/Tests/Registries.antt =====
-- Runs of the registries of prompts, skills and MCP servers.
use pangreksa_aigateway.Prelude.{◌≡◌, ◌↔◌, refl, true, false, [], ◌∷◌, none, some, ok, All}
use pangreksa_aigateway.Prelude.Texts.{Text, codes, text_eq}
use pangreksa_aigateway.Prelude.Dict.{lookup, insert}
use pangreksa_aigateway.Model.Config.{PromptConfig, SkillConfig, McpTool, McpConfig, GatewayConfig}
use pangreksa_aigateway.Registry.Prompt
use pangreksa_aigateway.Registry.Prompt.{Glob}
use pangreksa_aigateway.Registry.Prompt.Access.{Granted, resolve-Granted}
use pangreksa_aigateway.Registry.Skill
use pangreksa_aigateway.Registry.Skill.{index_skills, is_allowed, summaries_of, content}
use pangreksa_aigateway.Registry.Skill.Disclosure.{Discloses, summaries-Discloses}
use pangreksa_aigateway.Registry.Mcp
use pangreksa_aigateway.Registry.Mcp.{AllowResult, allow}
use pangreksa_aigateway.Registry.Mcp.Whitelist.{Permits, allow-Permits}
use pangreksa_aigateway.Tests.Instances.{plain, alice}

abbrev greeting : Text → PromptConfig
greeting text = record { fqn = codes "acme.greet"; content = text; variables = codes "name" ∷ [] }

abbrev writer : SkillConfig
writer = record {
  name = codes "write_mail";
  description = codes "Writes mail.";
  content = codes "Begin with a greeting.";
  preload = false;
}

abbrev remover : McpTool
remover = record { name = codes "remove"; destructive = true; description = [] }

abbrev files : McpConfig
files = record { name = codes "files"; url = codes "http://files"; tools = remover ∷ [] }

abbrev config : GatewayConfig
config = record {
  version = codes "v1";
  gateway_id = codes "g1";
  proxies = [];
  registry = record {
    prompts = greeting (codes "Hello {{name}}") ∷ greeting (codes "Hi {{name}}") ∷ [];
    skills = writer ∷ [];
    mcps = files ∷ [];
  };
  policies = record { guardrails = []; budget_rules = []; rate_rules = [] };
}

abbrev prompts : Prompt.Registry
prompts = Prompt.update (record { prompts = [] }) config

abbrev any_name : Glob
any_name pattern name = some (text_eq pattern (codes "*"))

resolve-Granted_example :
    (Prompt.resolve plain any_name none prompts
        (codes "acme.greet")
        ((codes "name", codes "Ann") ∷ [])
        ((codes "name", codes "Ann") ∷ [])
        alice
      ≡ ok (codes "Hi Ann"))
    ↔ Granted any_name prompts
        (codes "acme.greet")
        ((codes "name", codes "Ann") ∷ [])
        ((codes "name", codes "Ann") ∷ [])
        alice
        (codes "Hi Ann")
resolve-Granted_example =
    resolve-Granted plain any_name prompts (codes "acme.greet") ((codes "name", codes "Ann") ∷ [])
      ((codes "name", codes "Ann") ∷ []) alice (codes "Hi Ann")

abbrev skills : Skill.Registry
skills = Skill.update (record { skills = [] }) config

summaries-Discloses_example :
    All
      (Discloses plain skills alice.allowed_skills)
      (summaries_of ((codes "write_mail", writer) ∷ []) alice.allowed_skills)
unfolding Skill.update index_skills insert lookup text_eq
summaries-Discloses_example =
    summaries-Discloses plain (record { skills = [] }) config ((codes "write_mail", writer) ∷ [])
      alice.allowed_skills (refl, tt)

abbrev servers : Mcp.Registry
servers = Mcp.update (record { servers = [] }) config

abbrev with_approval : AllowResult
with_approval = record { allowed = true; hitl_required = true; tool = remover }

allow-Permits_example :
    (allow plain none servers (codes "files") (codes "remove") alice ≡ (some with_approval, none))
    ↔ Permits servers (codes "files") (codes "remove") alice with_approval
allow-Permits_example =
    allow-Permits plain servers (codes "files") (codes "remove") alice with_approval
