-- ===== src/Lib.antt =====
-- lite-agentify: a model of the LLM gateway and its theorems.
--
-- The gateway takes a client's request, checks its key and its credit, resolves the model to a
-- chain of deployments, sends the request to one provider after the other with retries, hands the
-- answer on, and records what it cost. The modules follow the crate:
--
--   Domain         src/domain/token.rs: TokenUsage and its operations
--   Model          src/model.rs: providers, catalog entries, the retry policy
--   Config         src/config.rs: the sections that reach the gateway state
--   Pricing        src/pricing: pricing_map and calculate_cost
--   Catalog        src/catalog/mod.rs: the snapshot and the listing gate
--   Account        src/account/mod.rs: roles, the records of users and keys, the identity behind a key
--   Account.Keys   src/account/keys.rs: generate_api_key, hex, key_prefix; decode_hex_32
--   Account.Database, Account.Store
--                  src/account/entity.rs, src/account/store.rs, with the unique indexes of src/db.rs:
--                  the tables and SeaOrmAccountStore, active_key_map included
--   Catalog.Entity, Catalog.Providers, Catalog.Rules, Catalog.Models, Catalog.Store
--                  src/catalog/entity.rs, src/catalog/store.rs: SeaOrmCatalogStore on the same
--                  tables, snapshot in the last
--   Quota.Entity, Quota.Ledger
--                  src/quota/entity.rs, src/quota/store.rs: the ledger of credit grants
--   Account.Bootstrap
--                  src/account/bootstrap.rs: bootstrap_accounts
--   Quota          src/quota/counter.rs, src/quota/mod.rs: spend counters and reconciliation
--   Build, State   src/state.rs: from_parts, authorize, resolve, listable_models,
--                  check_quota
--   Usage          src/usage/parse.rs, src/usage/observer.rs: usage in answers and streams
--   Proxy.Headers  src/proxy/headers.rs
--   Proxy.Request  src/proxy/router.rs, src/proxy/upstream.rs: body_for_deployment, upstream_uri,
--                  parse_retry_after_ms, backoff_delay
--   Proxy.Record   src/proxy/router.rs, src/usage/record.rs: record_usage,
--                  usage_observed_stream, forward_upstream_response
--   Proxy.Attempt  src/proxy/router.rs: attempt_provider and its loop
--   Proxy.Failover src/proxy/router.rs: proxy, the failover loop, protocol_error
--   Recorder       src/usage/recorder.rs: the channel, run_writer and the key touches of a batch
--   Reload         src/reload.rs: the shared state, store_catalog and reload
--   Session        src/admin/session.rs: MemorySessionStore and LoginLimiter
--   Admin, Admin.Login, Admin.Cookie
--                  src/admin/mod.rs: the console's state, its guards, refresh_api_keys, login, logout
--   Admin.Password src/admin/password.rs: verify_password and constant_time_eq
--   Admin.Users, Admin.ApiKeys
--                  src/admin/account_api.rs: the handlers of users and of keys
--   Admin.Providers, Admin.Rules, Admin.Models
--                  src/admin/catalog_api.rs, src/admin/models_api.rs: the handlers of providers,
--                  of pricing rules and of models
--   Admin.Credits  src/admin/credits_api.rs: the handlers of balances and grants
--
-- Prelude holds the shared tests, lists, maps, integers and texts; Samples holds small instances
-- of the parameters and a gateway for runs. A module named Tests runs the model on them.
--
-- State is passed explicitly. The proxy threads a World: the spend counter, the records given to
-- the recorder, the requests sent and the waits slept, in order. What lies outside the crate is a
-- parameter: rust_decimal (Decimal.DecimalOps, with DecimalLaws), serde_json (Json.JsonOps, with
-- JsonLaws), HeaderValue (Proxy.Headers.HeaderOps), the f64 product of the backoff (Model.Jitter),
-- the Redis server (Quota.RedisOps), the argon2 crate (Admin.Password.Argon2), the values of a
-- JSONB column (Account.Database.ColumnJson, with ColumnLaws), which statements the database
-- server fails and the ids and times it is given (Account.Database.Server), the reader of the
-- configuration file, the SHA-256 digest and the URI parser, the random bytes of a key and the
-- parser of decimals (function arguments), and the upstreams, the clock and the random numbers
-- (Proxy.Record.Outside), whose answers may depend on all that happened before. A UUID and a time
-- stamp are numbers. A HashMap is an association list with distinct keys.
--
-- Integers: an i64 is the integer that it stands for, and its sum wraps around as in a release
-- build; u64 saturates where the source does. A sum or product of decimals past 96 bits, which
-- makes the crate panic, is outside the model. The loop of `feed` has the length of the buffer as
-- fuel, and each round takes at least a byte off it; the retry loop runs on the attempts that
-- remain. The loop that draws a key has a bound on its rounds, which is enough once forty usable
-- bytes have come.
--
-- The stores work on the tables one statement at a time, each of which may fail; rows come in the
-- order of their insertion where no other is asked for, and the collation of texts is the
-- server's. A decimal is kept as its numeric(20, 10) column rounds it, by numeric_20_10 of
-- Decimal.DecimalOps; one that does not fit is a statement that fails. The console's handlers pass on the AdminState: the shared gateway state, the tables,
-- the sessions and the limiter.
--
-- Not modelled: logging, the network client, SQL text and the table of usage, file watching, the
-- one-time imports of the catalog, the console's handlers of usage, the Redis session store, and
-- the concurrency of requests (each request runs on one snapshot and on the counter as it finds
-- it). The writer of usage records is a relation on its states, whose steps, each round of the
-- draining at shutdown included, interleave with the requests in any order; a sink that fails is not told apart from one that writes. The calls of the session store
-- come with the times at which they read the clock. A decimal's panics and lock poisoning are left
-- out.
pub mod Prelude
pub mod Domain
pub mod Model
pub mod Decimal
pub mod Pricing
pub mod Config
pub mod Catalog
pub mod Json
pub mod Usage
pub mod Account
pub mod Admin
pub mod Quota
pub mod Build
pub mod State
pub mod Proxy
pub mod Recorder
pub mod Reload
pub mod Session
pub mod Samples
