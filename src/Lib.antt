-- ===== src/Lib.antt =====
-- The verification library of the DreamChat Image Platform: the parts of the Go service that decide
-- which stored asset or which provider serves a request, how often a token may ask, and what it may
-- cost.
--
-- The parts, by file, with the code that each is about:
--
--   Common           shared lists, Boolean tests, strict weak orders, stable sorting, Go's order of
--                    strings, signed integers, tables with a text primary key
--   Providers        internal/providers/capability.go: the capability hierarchy and the readiness
--                    assessment (`CapabilitySatisfies`, `ProviderSatisfiesRoute`,
--                    `AssessIdentityReadiness`); Providers/Hierarchy is what is proved of it
--   Routing          internal/providers/routing/routing.go: `candidates`, `Resolve`, `ResolveChain`
--                    and `ranksBefore`. Routing/Ranking, Filters and Chain are the proofs about the
--                    order, the filters and the two entry points; Routing/Reconcile is reconcile.go,
--                    the boot-time report on the same routes
--   Cost             internal/cost/cost.go on its tables: Cost/Queries and Cost/Events are the SQL
--                    statements of internal/db/dbgen/cost.sql.go and cost_lifecycle.sql.go,
--                    Cost/Reserve is `Reserve`, Cost/Lifecycle is `Commit`, `Release` and
--                    `ReconcileForReservation`. Cost/Conservation states the invariant; Closing,
--                    Settling, Once, Reported, Admission, Reserving and Reconciled are
--                    the proofs
--   Ratelimit        internal/ratelimit/ratelimit.go and middleware.go: `Allow` and the middleware;
--                    Ratelimit/Windows is what is proved of them
--   Assets           internal/assets/variants.go: the tables of variants and `ClassifyVariant`;
--                    Assets/Compatibility is compatibility.go, `CompareVariants`, and Assets/Safety
--                    what is proved of both; Assets/Retrieval is retrieval.go, `Retrieve`, and
--                    Assets/Picking what is proved of it; Assets/Supersede is supersede.go, the takeover
--                    of an artifact's slot, and Assets/Superseding what is proved of it
--   Jobs             internal/jobs on its tables: Jobs/Queries is the SQL statements of
--                    internal/db/dbgen/generation_jobs.sql.go and provider_attempts.sql.go,
--                    Jobs/Persist is guarded_persist.go, and Jobs/Fallback the part of worker.go that
--                    calls providers (`generateWithFallback` and its cap), Jobs/Worker its claims and its
--                    terminal failures. Jobs/Steps is the life of a
--                    job as a step relation; Coherence, Changes, Settled, Persisted and Stale are the proofs
--                    about it, Billing, Walking and Stopping those about the provider calls, Claims those about
--                    the worker
--   AdminJobs        internal/adminjobs/adminjobs.go: `CancelJob` here, `RetryJob` in AdminJobs/Retry, over
--                    the tables of Jobs and of Cost; Cancelled, Retried and Answered are
--                    the proofs
--   JobService       internal/jobs/service.go: `CreateAndEnqueue` for a job without an asset pack, and
--                    `LookupReplay`; the tables, the cap's count and the replay of a key are here, the
--                    transaction and the enqueueing in JobService/Create; Creating and Creations are
--                    the proofs
--   Webhooks         internal/webhooks: the endpoint of a tenant, `Emit` and `Handle`; Endpoints and
--                    Deliveries are the proofs
--   Governance       internal/governance/governance.go and signature.go: `Verify`, `Decide` and
--                    `EnforceWithStubError`; Governance/Gate is what is proved of them
--
-- How they interact: the middleware limits a token's requests, the HTTP layer resolves a route
-- (Routing, which asks Providers whether a provider backs the route's capability), reserves its
-- cost (Cost/Reserve), and the worker finalizes the reservation (Cost/Lifecycle). Before a
-- generation, retrieval looks for a stored asset that may stand in, which the variant tables and
-- the matrix decide. A worker's output is stored in one transaction that locks the job's row
-- (Jobs/Persist), the same row that an administrator's cancel and retry lock (AdminJobs), which release
-- and reserve cost in their own transaction. Each transition of a job is told to the tenant's endpoint
-- (Webhooks).
--
-- How code becomes definitions. A struct or a table row is a record with the columns that the modelled
-- code reads or writes, an error an alternative of a result type, a `map[string]bool` a function, the
-- capability index an association list whose missing key is the zero value, and a loop over a slice a
-- recursion on the list. A transaction is a function of the tables; a statement whose failure the
-- modelled code would only pass on has no error alternative, except the unique violations that a
-- reservation and an endpoint can meet, and the mark of a webhook's delivery, whose failure is an
-- argument. `sort.SliceStable` is a stable insertion sort, of which Common/Sort proves that
-- it permutes and orders. A state with concurrent writers is a sequence of transactions, in any
-- order; the two statements of the webhook configuration, which share no transaction, each have the
-- rows that they see. There is no fuel: every loop recurses on a list.
--
-- Amounts are natural numbers, in units of the last decimal of their NUMERIC column, and prices of
-- routes and deltas are integers; an asset's version is an int32, whose sum with 1 wraps around; no other column overflows in the model, where the database would refuse
-- the statement. Times are natural numbers, and the start of the current budget window is an argument.
-- Ids that the code draws at random are arguments, and so is the store that counts requests, with the
-- laws that its interface documents: a counter expires, and its time to live is set when it is created.
--
-- Not modelled: HTTP handlers and generated API types, the database driver and row-level
-- security, the provider adapters' network calls, the Redis script behind the rate limits,
-- telemetry and configuration, image processing, what `CreateAndEnqueue` computes before its transaction
-- (the same-price fallbacks, the worst-case units), the creation of packs and of cached jobs (internal/jobs/service.go),
-- the parts of the worker around the provider calls and the outputs, and cost administration.
pub mod Common
pub mod Providers
pub mod Routing
pub mod Cost
pub mod Ratelimit
pub mod Governance
pub mod Assets
pub mod AdminJobs
pub mod JobService
pub mod Jobs
pub mod Webhooks
