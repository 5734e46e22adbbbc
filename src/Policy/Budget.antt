-- ===== src/Policy/Budget.antt =====
-- internal/policy/budget/budget.go, with `IncrByFloat` of internal/cache/redis/redis.go. Redis's
-- float counters and package time's texts of a date come as values of records.
pub mod Counters
pub mod Rules
pub mod Check
pub mod Charges
