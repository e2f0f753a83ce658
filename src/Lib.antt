-- ===== src/Lib.antt =====
-- Verification of the policy core of kittle, of its rate limits, its schedules and its jobs.
--
-- The program. A policy bundle grants and denies actions on records by attributes: each policy has
-- a priority, an effect and a predicate on the record. Predicates are a small tree language,
-- evaluated in memory in three truths and compiled to row filters. Policy conditions, groups of
-- clauses on fields, compile to predicates for the caller at hand, and a policy is normalized, that
-- is checked against the module's catalog, compiled and copied, before a bundle holds it. A decision
-- walks the tiers of equal priority from the highest down; a row filter is one expression for the
-- same walk. Reads are projected by field modes, queries are restricted by field, and writes are
-- checked by decision and by field. Rate limits are separate: a check reads a store's bucket. So are
-- schedules: a cron expression is parsed into sets of numbers, and a schedule fires by its
-- policies. A dispatcher claims due jobs of a store and executes them one after another: each runs
-- under a lease that a heartbeat renews, and ends in a transition of the store, by its retry policy.
--
-- The files, under verification/, and the code, under packages/core/src/:
--   Base, Base/*            helpers: tests into Bool, lists, whole numbers, text, errors, maps
--   Js                      the values of a record, and `===`, as domain/evaluatePredicate.ts reads them
--   Predicate               domain/predicate.ts, the tree; a filter list is a type of its own
--   Predicate/Eval          domain/evaluatePredicate.ts: evaluateCondition, evaluatePredicateTruth,
--                           evaluatePredicate; Predicate/Truth has the laws of the three truths
--   Predicate/Simplify      domain/predicateSimplifier.ts; the laws are in its children
--   Predicate/Shape         domain/predicate.ts: assertPredicateNode
--   Predicate/Supported     domain/predicate.ts: findUnsupportedPredicateCombination and
--                           findNonPortablePredicate, with the field types of coercePolicyValue.ts
--   Tier, Tier/Decision     foundation/abacTierDecision.ts: resolveTieredDecision
--   Tier/Outcome            foundation/policyTierResolver.ts: buildTieredPolicyOutcome
--   Abac                    domain/abacTypes.ts, payload types of domain/abacPolicySchema.ts, and
--                           assertVerifiedAbacBundle of domain/abacBundleIntegrity.ts
--   Abac/Decision           domain/abacDecision.ts and domain/abacCapabilities.ts, whose laws are in
--                           its child
--   Abac/Scope              domain/abacReadScope.ts: buildActionScope
--   Abac/Collection         domain/abacDecision.ts: evaluateAbacActionForCollection
--   Abac/Write              domain/abacWrite.ts, domain/fieldWriteInternals.ts, and
--                           assertPolicyWritableFields of domain/fieldAccess.ts
--   Abac/Fields             domain/fieldAccess.ts: Cache has resolveFieldReadOverrides with its
--                           cached policy lists, Denied follows a field through their walk,
--                           Projection has maskValue and projectResponseRecord, Query has the
--                           query access of fields
--   Policy                  domain/coercePolicyValue.ts, and the condition types of
--                           domain/abacPolicySchema.ts
--   Policy/Compile          domain/abacConditionCompiler.ts; Policy/Meaning and Policy/Between have
--                           its laws
--   Policy/Catalog          domain/abacPolicySchema.ts: validatePayloadAgainstCatalog, with the catalog
--                           of domain/abacCatalog.ts; its law is in Policy/Catalog/Fit,
--                           with what it asks of names in Policy/Catalog/Names
--   Policy/Normalize        domain/abacPolicyNormalizer.ts: the checks and searches; Durable has
--                           canonicalizeDurable and normalizeAbacPolicy, Survives, Kept and Sound
--                           have the laws
--   RateLimit               rate-limit/rateLimit.ts: checkRateLimit; Window has parseTimeWindowMs
--                           and enforceRateLimit
--   Schedule                execution/scheduleCalculator.ts: parseCronExpression and the match of a local
--                           time; Schedule/Cron has the laws, Schedule/Firing has
--                           assertSchedulePolicies and shouldFireSchedule
--   Job                     execution/types.ts: the data of jobs, and assertStoredJobShape; its laws
--                           are in Job/Shape
--   Job/Retry               execution/retryPolicy.ts, with the laws in Job/Retry/Bounds
--   Job/Store               execution/types.ts: JobStore, with assertJobTransitionResult, and
--                           markFailedState of execution/dispatcher.ts
--   Job/Race, Job/Run       execution/dispatcher.ts, executeJob from the race of the job, its heartbeat
--                           and its timer on; Job/Failure has handleJobError
--   Job/Execute             execution/dispatcher.ts: executeJob with its guards, decodeJobPayload
--   Job/Dispatch            execution/dispatcher.ts: dispatchDueJobs, validateDispatcherConfig
--   Job/Verdict, its children and Job/Attempts follow a job's outcome through these
--   Tests, Tests/*          a sample bundle, on which the theorems are applied
--
-- State and errors. A call that throws is a `Result`; an error keeps its kind, and a refused write
-- or query also what the program attaches to it; a message is a constructor. The policy-list cache and a rate-limit store are
-- states that a call takes and returns. A job's world, the store in it, is one too. The race of a
-- job is a list of events in their order, which the job definition gives: any interleaving of the
-- job, its heartbeat and its timer is such a list. What happens in one of the other awaits is in the
-- operation awaited.
--
-- Parameters. Numbers inside records are a type with its comparisons, the conversion of texts to
-- numbers and `Date.parse` (`Numbers`), since they are doubles of the runtime. `String(value)` is
-- an argument of the projection, and of the coercions with the tests of finite numbers and times;
-- `Number.isSafeInteger` and `toISOString`, which may throw, are arguments of the normalizer. A
-- rate-limit store is an operation on a state of any type; that it counts is a hypothesis of the
-- theorem that needs it. `identity` stands for the object that a
-- Set compares. The job store, the registry, the clock, `JSON.parse` and the code of a job are
-- arguments of the dispatcher, and the arithmetic of doubles is `JobNumbers`; the theorems that need
-- its signs, or a store that applies what it is asked, say so.
--
-- Bounds. A predicate's shape check counts the levels left, 101 at the root, which is the depth of
-- 100 that the code allows. The loop over the values of a cron part has the length of its range
-- for fuel, which its theorem shows to be enough. All else recurs on its data. Priorities are
-- whole numbers of either sign, as the normalizer asks. Rate-limit numbers are whole or not
-- finite.
--
-- Not modelled: parsing of policies, digests and freezing, operations, the
-- registry of jobs and the dispatch of schedules, the search for the next run of a schedule and its
-- time zones, caching, entities, and the adapters to
-- databases and HTTP servers. Properties that a record inherits are not seen; read overrides take a
-- field named __proto__ as any other; a clock whose sleep throws before it returns a promise is not
-- seen as a lost lease; and messages and logs are left out.
pub mod Base
pub mod Js
pub mod Predicate
pub mod Tier
pub mod Abac
pub mod Policy
pub mod RateLimit
pub mod Job
pub mod Schedule
pub mod Tests
