-- ===== src/Policy/RateLimit.antt =====
-- internal/policy/ratelimit/ratelimit.go. Redis and Lua are not under the repository: the commands
-- that the script calls come as a value of `Counters`. A script runs as one step.
pub mod Counters
pub mod Script
pub mod Rules
pub mod Check
