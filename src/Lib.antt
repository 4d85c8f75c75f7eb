-- ===== src/Lib.antt =====
-- mcp-suite: the approval, admission and redaction core of Sentinel, the security proxy for MCP servers, the
-- URL policy, fetch, retry and client that the packages share, and the health checks of Forge.
--
-- Sentinel stands between a client and an MCP server. A tool call is resolved to a virtual key, passes the
-- request pipeline (allowlist, rate limit, added middlewares, policy rules), and may need an approval: the
-- gate stores a request with a single-use capability, dispatches it to channel adapters, and holds the call
-- until the request is decided, cancelled or expired; an approved request is claimed once.
--
-- Files and sources:
--   Common, Common/*        Boolean tests, lists, and the JavaScript text operations that several parts use
--   Effect, Effect/*        a method as a function from state to result and state; a throw keeps what was
--                           written; by rules: Respects, relations between the states before and after, and
--                           Raises, the errors that are thrown
--   Json, Table             JSON values; the reads and keyed writes of a SQL table
--   Sentinel/Request        ToolCallRequest of packages/sentinel/src/auth/KeyManager.ts
--   Sentinel/Approval/*     packages/sentinel/src/approval/ApprovalStore.ts: Model (types, rows, errors), Input
--                           (checks and hashes), Sql (the statements that the methods share), Create
--                           (createOrReuse), Dispatch (recordDispatch, recordDispatchFailure), Decide (decide,
--                           cancel), Claim (claimExecution), Expiry (expire, expireDue), Read (get, list, events);
--                           Methods is the interface by which a relation kept by each statement is kept by each
--                           method, Evolution and Audit fill it, Calls runs any sequence of calls
--   Sentinel/Approval/Gate  packages/sentinel/src/approval/ApprovalGate.ts: Duration is parseApprovalDuration, Gate
--                           request, holdRequest and cancel
--   Sentinel/Keys           packages/sentinel/src/auth/KeyManager.ts
--   Sentinel/Pipeline       packages/sentinel/src/proxy/RequestPipeline.ts and ResponsePipeline.ts,
--                           packages/sentinel/src/policy/PolicyEngine.ts
--   Sentinel/Redaction      packages/sentinel/src/audit/AuditRedactor.ts: Methods is its methods, Limits the size of what
--                           they return, Secrecy what it does not tell
--   Sentinel/AuditLog       packages/sentinel/src/audit/AuditLog.ts, over the redactor: Methods is its methods,
--                           Remediation what a read
--                           finds, Rows the lists of rows, Csv the export
--   Sentinel/Proxy          handleToolCall of packages/sentinel/src/proxy/SentinelProxy.ts, over the parts above
--   Shared/ApiKey           packages/shared/src/auth/ApiKeyMiddleware.ts
--   Shared/Url, UrlPolicy   packages/shared/src/security/urlPolicy.ts: Subnets is the two block lists, UrlPolicy the
--                           policy, Addresses the addresses it accepts, Targets what it promises
--   Shared/SafeFetch        packages/shared/src/security/safeFetch.ts: SafeFetch is the options and the request,
--                           Response the bodies and their limits, Redirect and Loop the hops; it calls UrlPolicy
--                           for each hop, and Steps carries a property of one hop to all of them
--   Shared/RateLimiter      packages/shared/src/ratelimit/RateLimiter.ts, in thousandths of a token: Budget is what
--                           it grants in a stretch of time
--   Shared/Retry            packages/shared/src/utils/retry.ts: Outcomes is its specification, a relation
--   Shared/JsonRpc          packages/shared/src/protocol/jsonrpc.ts and version.ts
--   Shared/Client           packages/shared/src/client/MCPClient.ts: Events is its methods and callbacks, which
--                           come in any order; a request is known by its number, that of its promise and timer,
--                           and of a promise the first settlement counts
--   Forge/Health            packages/forge/src/connections/HealthChecker.ts
-- The Examples files apply the theorems to concrete data.
--
-- State: a database is the lists of its rows, oldest first, with the counter of the AUTOINCREMENT column. A
-- transaction that throws puts the database back. An INSERT throws `constraint` on a used primary or unique
-- key and on a reference to a missing row. ORDER BY keeps the order of equal rows. The clock, randomUUID and
-- randomBytes are functions of the number of earlier calls; SHA-256, JSON text, toISOString and localeCompare
-- are parameters; the approval store takes the redactor as an interface. A Date is its time in milliseconds, since the
-- ISO texts of years with four digits have the order of the times, and expireDue compares the texts, among
-- which later years come first; an invalid Date of a caller is `none`.
-- The names of an object are in insertion order: names that look like array indices are not treated apart.
-- In the gate, an await is a point where any calls of the store by others may come in.
--
-- Bounds and fuel: numbers are natural numbers without an upper bound; parseApprovalDuration refuses what is
-- above 2^53 - 1. The hold loop runs on fuel: one round more than the clock readings left until the clock
-- shows the expiry is enough. The loop over redirects runs on fuel, one hop more than the check of the
-- redirects lets run, the validation of an address on the length of its text, and the loop of withRetry on the
-- attempts that are allowed. The summary of a request that is too long runs on its budget. All other loops are structural.
--
-- Not modelled: the constructors and the schema migration, the messages of errors, the timers, the PII
-- middleware (a parameter of the response pipeline), the proxy's transport,
-- the packages atlas,
-- bridge, composer and observatory, and the rest of packages/forge and packages/shared.
pub mod Common
pub mod Effect
pub mod Forge
pub mod Json
pub mod Sentinel
pub mod Shared
pub mod Table
