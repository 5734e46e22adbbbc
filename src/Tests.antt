-- ===== src/Tests.antt =====
-- Concrete runs of the model, at which the theorems are applied.
pub mod Instances
pub mod Breaker
pub mod RateLimiting
pub mod Budgets
pub mod Guardrails
pub mod Registries
pub mod Entitlements
pub mod Proxies
pub mod Dispatches
pub mod Deliveries
pub mod Pipelines
pub mod Consoles
pub mod Sessions
pub mod Servers
