-- ===== src/Llm.antt =====
-- internal/llm: the circuit breaker and the dispatcher that asks it.
pub mod Breaker
pub mod Dispatcher
