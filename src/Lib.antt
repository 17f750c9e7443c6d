-- ===== src/Lib.antt =====
-- GL Delivery Assurance: a library about the program's trust boundary and the services below it.
--
-- The program serves executive views of a project portfolio. Every request passes the dispatcher of
-- `src/app/api`, which limits its rate and asks the enforcement point of `src/app/authorization` to
-- authorise it. The enforcement point validates the caller's session (`src/contexts/identity`), asks
-- the access policy (`src/platform/authz`) whether the caller's role has the capability and which
-- projects its scope resolves to, and writes to the audit log (`src/platform/audit`). A payload then
-- leaves through the response shaping of `src/app/authorization/field-policy.ts`.
--
-- Files, with the code that each is about:
--   Base, Base/*            lists, options, maps and sorting that the parts share
--   Time, Time/Laws         src/platform/time/index.ts: instants, `instantPlusMs`, `earlier`
--   Access/Types            src/platform/authz/index.ts: roles, classifications, contexts
--   Access/Policy           src/platform/authz/policy.ts: `DeclarativePolicy` and its tables
--   Access/Policy/Laws      what `may` grants
--   Access/Policy/Scope     what `resolveScope` resolves to
--   Identity/Sessions       src/contexts/identity/internal/identity-provider.ts: `SessionStore`
--   Identity/Sessions/*     its invariant, the lifetime of a session, what `validate` accepts
--   Identity/Provider       the same file: `MockIdentityProvider`, `assertDemoEnvironment`
--   Audit                   src/platform/audit/append-only.ts: `InMemoryAuditLog`
--   Audit/*                 what writing appends, what reading returns
--   Authorization/FieldPolicy      src/app/authorization/field-policy.ts: `shape`, `classify`
--   Authorization/Enforcement      src/app/authorization/enforcement.ts: `EnforcementPoint`
--   Api/RateLimit           src/app/api/rate-limit.ts: `FixedWindowRateLimiter`
--   Api/Contract            src/app/api/contract.ts: `ROUTES`, `findRoute`, `pathParam`
--   Api/Validation          src/app/api/validation.ts, with `parseBoundedCount`
--   Api/Requests, Api/Dispatcher   src/app/api/dispatcher.ts: `Dispatcher.dispatch`
--   Persistence, Persistence/History   src/platform/persistence/in-memory.ts: the stores
--   Integration/Authority   src/contexts/integration/internal/authority.ts and the order of
--                           src/platform/provenance/index.ts: `SourceAuthorityRegistry`
--   Integration/IdentityHub src/contexts/integration/internal/identity.ts: `ProjectIdentityHub`
--   Integration/Conflict    src/contexts/integration/internal/conflict.ts: `detectConflicts`, with the
--                           observation of internal/staging.ts
--   Integration/Conflict/*  the groups, the governing observation, what is recorded
--   Integration/Staging     internal/staging.ts: `idempotencyKey`, `reconcile`
--   Decimals, Grades        src/platform/decimal/quantity.ts, and the bands of several contexts
--   Money, Money/*          src/platform/decimal/money.ts, fx.ts, currency.ts and ratio.ts, and the
--                           totals of src/contexts/portfolio/internal/aggregation.ts
--   Portfolio/Priority      src/contexts/portfolio/internal/intervention-priority.ts: the tiers
--   Portfolio/Priority/Ranking     `comparePriority`, `decidingTier`, `rankInterventionPriority`
--   Portfolio/Priority/Order, Reasons    the order of candidates, the tier that decides it
--   Explainability          src/platform/explainability/index.ts: `RuleEvaluation`, `explain`
--   Rules/Engine            src/contexts/rules/internal/engine.ts: `evaluateRule`, `evaluateRules`
--   Rules/Overrides         src/contexts/rules/internal/override-rules.ts: overrides and elevations
--   Rules/Engine/*, Rules/Explained      the exits of a rule, when it fires, what is explained
--   Health/Model, Health/Model/*   src/contexts/rules/internal/health-model.ts: the models, their check
--   Health/Scoring, Health/Scoring/*       src/contexts/health/internal/health-engine.ts:
--                           `scoreDimension`
--   Health/Statuses, Health/Statuses/*     the same file: coverage, missing dimensions, the override
--                           in date, the conflict of statuses
--   Health/Assessment, Health/Assessment/* the same file: `evaluateHealth`, the status that it gives
--   Assistant/Plan          src/contexts/ai-intelligence/internal/plan.ts: the vocabulary of plans
--   Assistant/Patterns      a matcher for the patterns that the validator tests values with
--   Assistant/Validator, Assistant/Validator/*   src/app/assistant/plan-validator.ts: `validatePlan`
--   Assistant/Proposal, Assistant/Proposal/*     the same file: `readProposedPlan`
--   Assistant/Conversation  src/app/assistant/conversation.ts: `refine`, `advance`
--   Assistant/Turns, Assistant/Turns/*     src/app/assistant/orchestrator.ts: `assistPlan`, and the
--                           planning and validation of `resolveAsk`; the result of the grammar and
--                           the model are arguments
--   Knowledge/Index, Knowledge/Index/*     src/contexts/knowledge/internal/lexical-index.ts: `tokenise`,
--                           `add`, `remove`, the postings
--   Knowledge/Chunks, Knowledge/Chunks/*   the same file: `chunkPages`, with `chunkIdFor` of
--                           src/contexts/knowledge/index.ts and `shortId` of src/platform/bytes/index.ts
--   Knowledge/Retrieval, Knowledge/Retrieval/*   the same file: `retrieve`, with `citationFor` of
--                           src/contexts/knowledge/index.ts
--   Parse/Tabular           src/platform/parse/tabular.ts: `parseCsv`, `neutraliseFormula`
--   Parse/Tabular/*         the budget, the round trip, what the cells hold
--   Time/Periods            src/platform/time/periods.ts: days, ISO weeks, fiscal months, as-of tests
--   Time/Periods/*          days and dates, weeks and their Mondays, the order of dates
--   Tests/*                 runs on concrete inputs
--
-- How state is modelled. A class is a record of its private fields, and a method is a function from
-- that record to the record afterwards and what the call returns or throws. The clock is the instant
-- that is given to a call. A `Map` is an association list in insertion order. A thrown error is a
-- constructor of the method's result. Awaited calls run in the order in which the code awaits them.
--
-- What stands outside. The SHA-256 digest of an audit record is a parameter, and so are the handlers
-- of the routes, `localeCompare`, and the trimming and folding of an external id. Texts compare by
-- code points. Telemetry is left out, as no result depends on it. An instant is given by its second
-- and the milliseconds that are written, which is what `Date.parse` and the order of the texts read.
-- The numbers of `decimal.js` and its operations are a record parameter, of which only the theorems
-- on the order of candidates, on conversions and on the return of an assessment use a law: that
-- `comparedTo` compares, `toFixed` writes a decimal, and the constructor reads the plain decimals. It
-- throws on a text that is no number: so do the comparison of a rule and the product of an amount,
-- and `qty` where a weight, an edge or a value is no plain decimal. What `qty` reads is given trimmed.
-- `trim` and `toUpperCase` of a
-- compared value are parameters too. The floating-point numbers of scores are a record parameter, and
-- so are `JSON.parse` and the numbers that it reads, and `toLowerCase`. A text that
-- a pattern tests is the list of its UTF-16 code units, and a
-- plan's limit is an integer below 2^53. A file, or a page of a document, is read as its
-- UTF-16 code units, of which `written` makes the text of a chunk.
-- Recursion is structural, but for `year_from`, which takes one year for each of its days,
-- `decimal_digits`, which takes a digit more than the number has, and `cut_loop`, which takes the length
-- of its buffer, as each cut makes the buffer shorter.
--
-- Not modelled: the presentation, the HTTP server, the calls of language models and the scripts,
-- which are input and output; the allocation of amounts, the engines of the other contexts, the other
-- tables of rules, the planner of the assistant, the readers of workbooks and
-- documents, and the ingestion pipeline.
pub mod Base
pub mod Decimals
pub mod Money
pub mod Time
pub mod Access
pub mod Identity
pub mod Audit
pub mod Authorization
pub mod Api
pub mod Tests
pub mod Grades
pub mod Portfolio
pub mod Explainability
pub mod Rules
pub mod Health
pub mod Assistant
pub mod Knowledge
pub mod Parse
pub mod Persistence
pub mod Integration
