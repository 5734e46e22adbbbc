-- ===== src/Lib.antt =====
-- Verification library of the Pangreksa AI gateway: the decisions that the gateway daemon takes on
-- each request to a language model, the way of its events to the Central Server, the way of the
-- server's configuration to the daemon, and the sessions of the web console.
--
-- The daemon reads its configuration from a Central Server. For a request it resolves the user's
-- entitlement through three tiers, runs guardrails, rate limits and budgets, resolves prompts,
-- skills and MCP tools in registries, and dispatches to a provider behind a circuit breaker. These
-- parts share Redis and are reloaded while requests run. Each dispatch ends in an event, which a
-- producer sends to Kafka and the server's consumer stores in two tables and shows to live clients.
--
-- Files and code, by paths from the repository's root:
-- - Model/{Config, Policy, Entitlement, Inquiry}: the structs of pkg/model, one record for each,
--   with the fields' names in snake case. Model/Float and Model/Format stand for float64 and for the
--   verbs of fmt.
-- - Llm/Breaker: internal/llm/circuitbreaker.go. `allow`, `record_success` and `record_failure` are
--   the methods, `run` a history of calls; Breaker/Views says what each does to one provider.
-- - Llm/Dispatcher: internal/llm/dispatcher.go. `dispatch` is `Dispatch`, with a record of the outcome on
--   each of its branches; `send`, `build_providers` and `update` are the methods.
-- - Crypto: pkg/crypto/crypto.go.
-- - Policy/RateLimit: internal/policy/ratelimit/ratelimit.go. Script is `slidingWindowLua`, over the
--   Redis commands of Counters; Rules is `parseRule` and `Update`; Check is `Check`.
-- - Policy/Budget: internal/policy/budget/budget.go, and `IncrByFloat` of
--   internal/cache/redis/redis.go in Counters. Rules is `parseRule` and `Update`; Check is `Check`
--   and `Record` (`record_cost`).
-- - Policy/Guardrail: internal/policy/guardrail/guardrail.go.
-- - Registry/Prompt, Registry/Skill, Registry/Mcp: internal/registry/prompt/prompt.go, skill/skill.go
--   and mcp/mcp.go; Registry/Patterns is the pattern test that the last two share.
-- - Cache/Local, Cache/Redis, Cache/Invalidation: internal/cache/local/local.go, redis/redis.go and
--   invalidation/sub.go.
-- - Entitlement: internal/entitlement/resolver.go.
-- - Daemon/Pipeline: internal/daemon/pipeline.go. Steps has one action for each step of `Execute`, and
--   `execute` chains them; a `World` is what a call changes, `Parts` the configuration and `Occasion`
--   what the outside does meanwhile.
-- - Daemon/Producer: internal/producer/producer.go. `step` is one offer of a caller or one event that
--   the goroutine takes, `run` any sequence of them. A topic has its partitions, and one call of
--   WriteMessages may leave several copies, since the client tries again by itself; they are taken
--   to reach the partition before those of a later call.
-- - Daemon/Poller: internal/poller/poller.go; Adoption joins it with the handler that it polls.
-- - Daemon/Probe: internal/probe/probe.go.
-- - Server/Consumer: internal/server/consumer/consumer.go, over Server/Repository
--   (internal/server/repository/request_log.go and cost_record.go) and Server/Broadcaster
--   (internal/server/sse/broadcaster.go).
-- - Server/Http, Server/Api: internal/server/api/handler.go, `serve` for a request by either route;
--   Server/Configs is internal/server/configstore/store.go and
--   internal/server/repository/config_store.go with the handlers over them, and Server/Entitlements
--   internal/server/entitlement/service.go, internal/server/repository/entitlement.go and
--   `InvalidateUser` of internal/server/publisher/pub.go; Propagation follows an update of a user
--   to the daemon's resolver.
-- - Server/Auth: Jwt is internal/server/auth/jwt.go; Sessions is internal/server/repository/user.go and
--   console_session.go; Console is the login, refresh and logout of internal/server/api/auth_handler.go,
--   and Visits what these handlers read of a request.
-- - Proxy: `mapPipelineError` and `extractBearerToken` of internal/proxy/proxy.go, and the form of the
--   messages of `Execute` (internal/daemon/pipeline.go).
-- - Prelude: numbers, texts, maps and sorting as Go has them (strings, strconv.Atoi, maps, sort), and
--   in Actions the methods that change a state and may fail; Replacing and Splitting say what two
--   functions of strings do.
-- - Tests: concrete values of the parameters, and runs.
--
-- Conventions. A method that changes state takes the old state and returns the new one; a mutex
-- makes it one step. Times are natural numbers and come as arguments, seconds for the script and
-- nanoseconds elsewhere. Go's strings are lists of code points, its `int` is ℤ, its maps are
-- association lists, and the order of a range over a map is an argument. Errors are their messages.
-- Redis, the Central Server as the resolver sees it, the providers, Kafka, AES-GCM, SHA-256, HMAC,
-- bcrypt, encoding/json, base64, float64, `filepath.Match` and the verbs of fmt are parameters,
-- with the documented behaviour of the Redis commands, of the ciphers and of the encodings as laws.
-- A table of PostgreSQL is a list of rows, which hold UUIDs in PostgreSQL's spelling: a look-up takes
-- the text of a UUID through a parameter that gives this spelling. The identifiers of events are
-- taken to be in it already. What becomes of each call of Redis (it is answered, does
-- not arrive, or its reply is lost) is an argument of the code that calls it. All loops are
-- structural but the probe's, which has no end where its retries are unbounded: it runs on fuel,
-- one unit for an attempt, and with a bound on the retries as much fuel is enough. The lengths of
-- lists and the sizes of counters are not bounded: Redis counters and Go's slices are far from
-- their limits. Lua prints numbers below 10^14 in full, and the theorems on the script ask for
-- times below it.
--
-- Not modelled: the daemon's HTTP proxies and their adapters to the providers, the logger, metrics,
-- the console's configuration, observability and report handlers and their SQL repositories, the
-- start-up of the binaries, and the web console.
pub mod Prelude
pub mod Model
pub mod Policy
pub mod Registry
pub mod Cache
pub mod Entitlement
pub mod Crypto
pub mod Llm
pub mod Proxy
pub mod Daemon
pub mod Server
pub mod Tests
