-- ===== src/Lib.antt =====
-- The gateway: an HTTP proxy that lets Claude Code use Amazon Bedrock (src/ of the repository, Rust).
-- A request is authenticated, rate limited, held against the budgets of its user and team, routed
-- to one of the Bedrock endpoints, translated, and logged for billing. This library models the
-- parts that decide: what passes, where it goes, and what is recorded.
--
-- The parts, and the files that model them:
--   Budget                src/budget/mod.rs: policies, `validate_policy`, `evaluate`,
--                         `most_restrictive`
--   Budget/Cache          src/budget/mod.rs, `BudgetSpendCache`
--   Budget/Enforcement    src/api/handlers.rs, `check_budget`, `check_team_budget_only` and what they
--                         load; it calls Budget and Budget/Cache as the source does
--   Ratelimit             src/ratelimit/mod.rs, `RateLimiter::check` and `cleanup`
--   Spend                 src/spend/mod.rs and src/db/spend.rs: `SpendTracker` and its flush
--   Spend/Sanitize        src/spend/sanitize.rs
--   Endpoint/Capability   src/endpoint/mod.rs, the capability cache of `EndpointClient` and its probes,
--                         and src/translate/betas.rs over it
--   Endpoint/Pool         src/endpoint/mod.rs, `EndpointPool`: selection, fallbacks, affinities
--   Endpoint/Health       src/endpoint/mod.rs, `compute_health_state` and the probe flags
--   Endpoint/Pool/Reload  src/endpoint/mod.rs, `load_endpoints_inner`: a new generation of clients
--   Endpoint/Stats        src/endpoint/stats.rs: throttles, errors and requests of the last hour
--   Translate/Models      src/translate/models.rs: from the ids of Anthropic to those of Bedrock; its
--                         children Reverse and Discovery: the way back, and the choice of a profile
--   Translate/Request     src/translate/request.rs, over Translate/Models and Websearch
--   Translate/Response    src/translate/response.rs and src/translate/streaming.rs: the model name
--                         that an answer shows
--   Websearch             src/websearch: the tool of a request, and the content that a client sees
--   Api/Dispatch          src/api/handlers.rs, `messages`: the target at an endpoint, and the failover
--                         over the fallbacks of Endpoint/Pool
--   Api/Search            src/api/handlers.rs, `handle_with_web_search`: the loop over Websearch
--   Auth/CliSession       src/api/cli_auth.rs: the sessions of the login by a browser
--   Scim/Filter           src/scim/filter.rs: the parser and printer of SCIM filters
--   Scim/Groups           src/scim/groups.rs and src/db/scim_groups.rs: the tables are Membership and
--                         Tables, the operations of a patch are Patch, the requests are Requests
--   Scim/Users            src/scim/users.rs, with the statements of src/db/users.rs that it calls
--   Json                  `serde_json::Value`, with objects as `serde_json::Map` keeps them
--   Prelude               lists, texts, association lists, floats and the tests on numbers
--
-- Conventions. A lock makes a call one step, so an operation is a function on the state that is
-- behind the lock. Where the source reads a clock, the time is an argument, counted in nanoseconds;
-- a difference of instants stops at 0, as `Instant::duration_since` does. A `HashMap` is a list of
-- pairs without double keys, whose order stands for the order of an iteration. A uuid is a number.
-- Texts that the source walks are lists of code points, others are strings. Integers of a fixed
-- width are natural numbers with the wrap-around written out where the source casts or wraps;
-- counters that only a run of 2^64 steps could overflow are not wrapped, except the round-robin
-- counter, the counters of Endpoint/Stats and the tokens of Api/Search, whose wraps are written out.
-- SQL is modelled by its effect on rows; of its errors the ones that constraints raise are kept.
-- Floating-point numbers are a parameter (Prelude/Float) with one assumption, which is used only
-- where monotonicity is claimed. Recursion is structural, except that the filter parser counts one
-- step more than the text has characters, which is always enough, and that the loop of searches has
-- one round more than the searches it may make, ten at most, as the source bounds it.
--
-- Not modelled: HTTP, axum, sqlx, the AWS clients, JWTs, metrics and logging, which are libraries or
-- services that the source calls; the SQL of the reports in src/db/org_analytics.rs, whose meaning is
-- that of the database; and the parts of the gateway that are not named above.
pub mod Api
pub mod Auth
pub mod Budget
pub mod Endpoint
pub mod Json
pub mod Prelude
pub mod Ratelimit
pub mod Scim
pub mod Spend
pub mod Translate
pub mod Websearch
