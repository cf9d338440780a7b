-- ===== src/Lib.antt =====
-- The atlas-gateway, an OpenAI-compatible gateway for language models: the core of the request path
-- and of the prompt registry (app/).
--
-- A chat completion passes the stages of app/services/chat_service.py: the rate limiter, the monthly
-- budget, the pre-guardrails, the prompt registry, the exact cache, the alias router with the circuit
-- breaker around the provider, the accounting with its charge to the budget, the post-guardrails and
-- the store into the cache. Every collaborator is optional and injected.
--
-- Which file models which part:
--   * Chat.Service, Chat.Stream: app/services/chat_service.py. `complete` and `stream` are functions
--     of a world that the collaborators keep; a run returns or raises, changes the world and leaves
--     the list of its calls (Chat.Run). The ports are the records of Chat.Ports, which also model
--     app/providers/base.py. Each stage is a function of its optional collaborator. Chat.Breaking
--     fills the breaker's port with the breaker of Resilience, and Chat.Caching the cache's port with
--     the cache of Cache.Exact.
--   * Resilience.Breaker: app/resilience/circuit_breaker.py, each method by its name. A method's
--     transaction is one step on the database. Breaker.Spec is a state machine that knows no storage
--     and Breaker.Refinement relates the two.
--   * Limits.Budget, Limits.RateLimit: app/limits/budget.py and app/limits/ratelimit.py.
--   * Registry.Promotion, Registry.Resolver: app/registry/promotion.py and app/registry/resolver.py.
--   * Guardrails.Chain, and Guardrails.Metrics with counters: app/guardrails/chain.py and metrics.py.
--     Its members, each in app/guardrails/ under its name: Size, Pii and PiiNer (pii.py, pii_ner.py),
--     Injection, InjectionClassifier, ContentPolicy, Citation, SchemaRepair; and ToolSanitize, which
--     no chain has. SchemaRepair.Keywords, SchemaRepair.Validate are the walk over a JSON value.
--   * Accounting.Events: app/accounting/events.py, a publisher that Accounting.Adapter takes.
--   * Providers.Registry, Services.Embeddings, Services.Models: app/providers/registry.py and
--     app/services/. Api.Deps: app/api/deps.py, the guardrails that are wired and the check of a key.
--     Api.Chat: app/api/v1/chat.py, the handler, as a function of the service's `complete` and `stream`.
--   * Cache.Exact: app/cache/exact.py. Accounting.Recorder, Accounting.Adapter:
--     app/accounting/recorder.py and app/accounting/adapter.py, over the table of
--     Accounting.Postgres, a port with the documented behaviour of INSERT. Routing.Aliases:
--     app/routing/aliases.py with the rows of app/repositories/seed.py. Domain: app/domain/.
--   * Redis, Redis.Strings: the server as a port, with the documented behaviour of HGET, HSET, EXPIRE,
--     GET and SET as laws; Redis.Memory and Redis.Strings have servers in memory that fill them.
--
-- Numbers. Times are whole microseconds of `time.time()`, money is a whole number of a fixed unit and
-- tokens of the rate limiter are scaled, so that the code's floats and Decimals are exact: rounding of
-- floats is not modelled. Loops are structural recursion, and no definition has fuel: the repair loop
-- recurses on the attempts that are left, and the walk of a schema on the value.
--
-- Parameters: the providers, Redis, PostgreSQL, Jinja2, SHA-256, the eval gate, the JSON codec, Kafka's
-- producer and the verifier of citations are not code of the repository, and of the language these
-- are parameters: regular expressions, the tables of Unicode and the decimal texts of numbers. A law
-- that is assumed of one is a field of its record or a hypothesis of the theorem, and the tests fill
-- it with a concrete one.
--
-- Not modelled: the other routes (app/api/v1/) and app/main.py, the adapters of the providers' SDKs, the
-- lookup of citations over MCP, the semantic cache, the retry policy, telemetry and the redaction of
-- logs, the database repositories and migrations, the scripts and the deployment: third-party clients
-- and I/O for the most part. Of app/api/deps.py the construction of the recorder and of the database
-- pool is left out. Cancellation of a request is left out, and so is what other requests do between
-- two steps of one request, except where a definition takes two databases.
pub mod Providers
pub mod Services
pub mod Api
pub mod Common
pub mod Redis
pub mod Resilience
pub mod Limits
pub mod Registry
pub mod Domain
pub mod Chat
pub mod Routing
pub mod Cache
pub mod Guardrails
pub mod Accounting
