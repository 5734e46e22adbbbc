-- ===== src/Policy.antt =====
-- internal/policy: the guardrail, budget and rate limit engines.
pub mod RateLimit
pub mod Budget
pub mod Guardrail
