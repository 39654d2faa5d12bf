-- ===== src/Lib.antt =====
-- Verification of the netweave O2 gateway (Go).
--
-- The gateway offers the O-RAN O2 interfaces over pluggable backends. Modelled are the parts that
-- keep state or decide by themselves, between the HTTP layer above and the backends below:
--
--   Packages     internal/dms/storage/packages.go: MemoryPackageStore, the store of deployment
--                packages with its name index and content. `Packages` has the methods that change
--                the store and those that look one package up, `Packages.Listing` has List, and
--                `Packages.SemVer` the regular expression of ValidateSemVer.
--   Pagination   internal/adapter/helpers.go: ApplyPagination.
--   Registry     internal/registry/registry.go: the plugin registry; `Registry.Selection` has
--                SelectPlugin, `Registry.Stats` has Stats and `Registry.Health` has HealthCheck.
--   DmsRegistry  internal/dms/registry/registry.go: the registry of DMS adapters; `DmsRegistry.Laws`
--                has its invariant, `DmsRegistry.Defaults` the default plugin and the searches.
--   Routing      internal/routing/routing.go: which DMS adapters a request goes to. `Routing.Rules`
--                has the rules of a router, `Routing.Config` internal/routing/config.go and
--                NewRouter; the others are about the choice, the order and the loading of rules.
--                The router reads the registry of `DmsRegistry`.
--   Batch        internal/handlers/batch.go: the batch requests. `Batch` has executeBatch over any
--                backend, `Batch.Subscriptions` the batches of subscriptions over storage.Store
--                (internal/storage/storage.go); `Batch.Counts`, `Batch.Response`, `Batch.Rollback`
--                and `Batch.Atomicity` are about the counters, the reply and the rollback.
--   Auth         internal/auth/models.go: roles, permissions and the limits of a tenant;
--                `Auth.Roles` is about the predefined roles.
--   Notifier     internal/events/notifier.go: the delivery of an event to a callback. `Notifier` has
--                NotifyWithRetry with its loop, `Notifier.Matching` internal/events/filter.go,
--                `Notifier.Processing` processEvent of internal/events/processor.go, which calls both;
--                `Notifier.Loop` has the rule of the loop, and `Notifier.Backoff`, `Notifier.Ending`
--                and `Notifier.Statuses` apply it.
--   Settings     internal/config/config.go: Validate and its parts. `Settings.Valid` and
--                `Settings.Accepted` are about what is accepted, `Settings.Passwords` has the sources of
--                passwords, `Settings.Loading` the choice of the file and of the environment's name,
--                and `Settings.Secure` is about production and passwords.
--   Smo          internal/smo/registry.go: the registry of SMO plugins, with its invariant in
--                `Smo.Laws`, `Smo.Joining` and `Smo.Health`, the flag of the default in `Smo.Flags`, and
--                the life of the health check loop in `Smo.Checking`.
--   Query        internal/models/filters.go: the filter of a list request. `Query` reads it from the
--                query of a URL and writes it back, `Query.Matching` has its tests,
--                `Query.Selection` has SelectFields, and `Query.Text` what is used of packages strings
--                and strconv.
--   RateLimit    internal/middleware/ratelimit.go: the token bucket of checkLimit's script;
--                `RateLimit.Bound` is about how many requests pass.
--
-- A function of the model has the name of the Go function, in snake case; a method takes its
-- receiver as the first argument of its state and returns the new state. A Go map is an
-- association list whose order stands for the order of a `range` loop. A result `(value, error)`
-- is `Result`; an error leaves the state as it was, because the Go code changes nothing before
-- it returns one. A panic is an error value of its own, `panicked`. A context is the flag
-- whether it is cancelled, and a time is a natural number that the caller passes. `int` is an
-- unbounded integer, since the counts and priorities of the program stay far below 2^63; only
-- the sum of offset and limit, which a client chooses, wraps around at 64 bits. Locks do not
-- appear: where a method holds its lock from its first access of the state to its last, methods
-- take effect one after another. RouteMultiple and the health checks take their locks in pieces:
-- the reads of RouteMultiple are given the registry of their own moment (`Routing.Moments`), and
-- StartHealthChecks and StopHealthChecks of internal/smo are steps that may be interleaved; but
-- a round of health checks, whose answers take effect one by one, is taken without other calls
-- in between. Goroutines appear as the order in which they take effect. Loops run over lists,
-- and that of NotifyWithRetry on the rounds that are left, so no fuel is needed; Itoa has 20
-- rounds, since an `int` has at most 19 digits.
--
-- `url.ParseRequestURI`, `uuid.New` and the store behind the batch handler are parameters; a
-- goroutine of the worker pool takes effect at one moment, its turn. `sort.Slice` is a
-- parameter, the record `Routing.Rules.Sorter`, with the laws that its documentation states;
-- `Routing.Insertion` is an instance.
--
-- The circuit breaker of gobreaker is the record `Notifier.Breaker`; what a callback answers,
-- when a context is cancelled, what a plugin answers to a health check, what os.Stat says of a
-- path and what the environment holds are arguments. A float64 of the configuration is known by
-- how it compares with 0 and 1. When Redis drops the keys of a token bucket is the record
-- `RateLimit.Expiry`: not before two seconds have passed, and surely after three.
--
-- Not modelled: logging, metrics, the HTTP framework, Redis and Kubernetes clients, the backend
-- adapters, and the sharing of a `*Plugin` between the registry and its callers.
pub mod Common
pub mod Pagination
pub mod Packages
pub mod Registry
pub mod DmsRegistry
pub mod Routing
pub mod Batch
pub mod Auth
pub mod Notifier
pub mod Settings
pub mod Smo
pub mod Query
pub mod RateLimit
