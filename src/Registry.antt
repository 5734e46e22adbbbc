-- ===== src/Registry.antt =====
-- internal/registry: prompts, skills and MCP tools, behind the patterns of a user's entitlement.
pub mod Patterns
pub mod Prompt
pub mod Skill
pub mod Mcp
