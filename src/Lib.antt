-- ===== src/Lib.antt =====
-- TotalRecall is a service that remembers what an application under test looks like and generates
-- automated tests for it. This library models the parts of totalrecall/ that carry its own logic,
-- as functions that run, and proves what makes each part correct.
--
-- The parts and their files:
-- - Auth (totalrecall/auth): roles, permissions and bearer tokens. `collect_permissions` is the loop
--   of `permissions_for_roles`; a set is a list without repetitions.
-- - RateLimit (totalrecall/ratelimit/provider.py): the sliding window of each tenant.
--   `check_and_record` is the loop `drop_expired` followed by `decide_request`; `check` is the
--   provider's entry. Window, Runs and Retry compare the pruned queue with the whole history.
-- - Cache (totalrecall/cache/provider.py): the cache whose entries expire, and the keys of searches.
-- - Memory (totalrecall/memory, api/routes/memories.py, storage/tombstone_repo.py): the models and
--   the interface of an adapter, the in-memory and the null adapter (Stub, Null), the filter of
--   deleted memories (Tombstone), the counters (Metrics), the wrapper that composes them (Wrapper),
--   and the route and the table of deletions (Deletion). The wrapper calls the active adapter, shows
--   what the filter leaves, and caches it; a deletion marks the filter and invalidates the cache, and
--   both are the wrapper's own objects. Clean and Visibility prove what a search shows, Sessions and
--   Forgotten what holds after any sequence of calls, Counting what the counters say.
-- - Generation, Errors (totalrecall/generation, testgen models, errors.py): data, and the pipeline.
--   Orchestrator has the steps of `GenerationOrchestrator.generate`, and Pipeline composes them:
--   reformulation, input guardrail, fetches, plan, messages, redaction, gateway, output guardrail,
--   tone, normalization, validation and repair. Dispatch, Statuses, Blocking and Repairs prove what
--   leaves for a provider, what a result's status says, which requests end early, and what a repair
--   does. Route (api/routes/generations.py) calls the limiter, the pipeline and the counters for a
--   request. Samples holds data for the tests.
-- - Validation (totalrecall/validation): the coordinator's checks (`validate`) and the client of the
--   companion worker (Worker).
-- - Prompts (totalrecall/prompts, learning/redactor.py): the builder of messages, the redaction and
--   the repair turn.
-- - TestGen (totalrecall/testgen): the guardrails, the normalizer of packs (Packs), the router, the
--   tone check and the reformulation (Adapters), the messages for test cases (Prompts), and the loop
--   that cuts a text into chunks (Chunks).
-- - Skills (totalrecall/skills, api/routes/skills.py): the registry, the choice of a skill, and the
--   routes that promote and deprecate one (Routes).
-- - Metadata (totalrecall/metadata/extractor.py): the domain, the route, the words and the stack of a
--   request, which the planner asks for.
-- - Config (totalrecall/config/feature_flags.py, runtime_flags.py): the flags, from a flag service and
--   with local overrides.
-- - Observability (totalrecall/observability/metrics.py): the counters of the pipeline.
-- - Context (totalrecall/context): the plan of a prompt. It asks Skills for a skill and the memory
--   wrapper for entries, and keeps within a budget of tokens (Budget, Plans).
-- - Providers (totalrecall/providers: models, base, gateway, normalizer): the gateway and its chain of
--   fallbacks, and the artifacts and errors in an answer (Normalizer).
-- - Catalogue, Learning (totalrecall/catalogue, storage/catalogue_repo.py, totalrecall/learning,
--   storage/learning_repo.py, api/routes/learning.py): what a scan discovers, the comparison with
--   the run before, and the decisions on the discoveries.
-- - Common: shared names, lists, texts, dictionaries (association lists in insertion order), signed
--   integers, JSON values and outcomes. A call that may raise gives an `Outcome`.
--
-- Conventions: operations return the new state beside their result. Readings of a clock, fresh
-- identifiers, digests, regular expressions, the comparison of open values, and the outcomes of
-- database calls are arguments, since their code is not part of the program or not deterministic. A
-- monotonic time is a number of ticks, of which a second has `per_second`; a date is its text; a
-- floating-point number is carried as its text. Adapters and providers are records of functions over
-- a state `W` of their own. A lock makes the call that holds it one step. Loops are structural
-- recursion; the loop over chunks, whose index grows, has as many turns of fuel as the text has
-- words, which is proved to be enough. The libraries of the pipeline are the record `Libraries`, and
-- an orchestrator is a record of adapters over one state. Its two fetches, which run in parallel,
-- stand one after the other. Differences that may be negative are integers (Common/Int.antt) or have
-- the subtrahend on the other side of the comparison.
--
-- Not modelled: the wiring of the web application and its other routes, the command line, the user
-- interface, workers and containers (glue and other languages); remote adapters, model providers,
-- embeddings and the Jira client (calls of remote services); the reformulation by a language model,
-- settings and credentials, and the other tables of the storage; the length limits that models check
-- when a request is parsed, and the whitespace that they strip from its texts, which only the
-- artifacts of an answer and the reports of a scan of files have.
mod Common
pub mod Auth
pub mod RateLimit
pub mod Cache
pub mod Memory
pub mod Errors
pub mod Config
pub mod Observability
pub mod Generation
pub mod Metadata
pub mod Skills
pub mod Validation
pub mod Context
pub mod Catalogue
pub mod Providers
pub mod Prompts
pub mod TestGen
pub mod Learning
