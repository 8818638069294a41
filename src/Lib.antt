-- ===== src/Lib.antt =====
-- ExpenseFlow: expense reports that employees submit and that managers and finance approve.
--
-- The API (apps/api/src) is a set of services over one PostgreSQL database. ExpensesService creates
-- and submits expenses, asking PoliciesService which approvals an expense needs and writing them in
-- one transaction; ApprovalsService decides them one after the other; both write to the audit log
-- and put messages on a queue. Around them stand sessions, permissions, rate limits, idempotency
-- keys, receipts in S3, a dashboard, request counters and traces. AuthController logs users in by
-- password or, with OidcService, by an OpenID Connect provider, and keeps refresh tokens in cookies.
-- The web client (apps/web/src) has a table of permissions of its own and an HTTP client that
-- refreshes its access token; its page of expenses uploads receipts straight to S3.
--
-- Files and what they model:
--   Schema        apps/api/prisma/schema.prisma: enums, a record for each table, and the store of all
--                 tables with the queue.
--   Database      What the services use of Prisma, as the record `Client` of operations on the rows
--                 of a table with the laws `IsClient`, a client over lists that has them, and
--                 requests as functions of the store that return a value or an exception.
--                 `with_tenant` is withTenant of apps/api/src/prisma/prisma.service.ts.
--   Expenses      apps/api/src/expenses/expenses.service.ts, a function for each method.
--   Approvals     apps/api/src/approvals/approvals.service.ts.
--   Workflow      The two services above over one store: the invariant of expenses and their
--                 approvals (Consistent), the life of an expense that they implement (Lifecycle,
--                 Steps, Histories), and repeated requests (Guards, Stale).
--   Endpoints     The writing routes of apps/api/src/expenses/expenses.controller.ts and
--                 apps/api/src/approvals/approvals.controller.ts.
--   Policies      apps/api/src/policies/policies.service.ts.
--   Receipts      apps/api/src/expenses/receipt-storage.service.ts.
--   Audit         apps/api/src/audit/audit.service.ts.
--   Notifications apps/api/src/notifications/notifications.service.ts.
--   Mail          apps/api/src/notifications/email-provider.ts and notifications.processor.ts.
--   Permissions   apps/api/src/common/permissions, apps/api/src/common/guards and
--                 apps/web/src/auth/permissions.ts.
--   RateLimits    apps/api/src/common/rate-limit.
--   Sessions      apps/api/src/auth/auth.service.ts.
--   Oidc          apps/api/src/auth/oidc.service.ts.
--   AuthController
--                 apps/api/src/auth/auth.controller.ts.
--   Idempotency   apps/api/src/common/idempotency.
--   Metrics       apps/api/src/common/observability/http-metrics.service.ts.
--   Traces        apps/api/src/common/observability/request-context.ts.
--   Users         apps/api/src/users/users.service.ts.
--   Health        apps/api/src/health/health.service.ts and apps/api/src/operations.
--   Observability apps/api/src/common/observability/request-context.middleware.ts.
--   Reports       apps/api/src/reports/reports.service.ts.
--   WebClient     apps/web/src/lib/api.ts; Flights for callers that share a refresh.
--   ExpensesPage  apps/web/src/pages/Expenses.tsx: the form and the mutation createExpense.
--   Common        Shared helpers. Tests: concrete runs.
--
-- How the code is modelled. A name of the source is spelled with underscores (`submitWrite` is
-- `submit_write`). Strings are lists of UTF-16 code units. A request takes the time and the ids and
-- random strings that it draws from `Env`: one reading of the clock stands for all of a request's.
-- A method that throws returns `err` with the store as it was left; a transaction that throws is
-- rolled back. A method that the source writes as one body is cut at its transactions into
-- functions that the method chains. Amounts, versions and times are natural numbers. A row that a
-- required relation names is looked up where the source has an `include`.
--
-- Parameters. bcrypt, SHA-256 and HMAC, JSON, the JWT signer, dates as text, `toLowerCase`,
-- `toUpperCase`, `trim` and `localeCompare` belong to Node and its packages. RSA signatures, base64url
-- and the answers of the OpenID Connect provider are the records `Node` and `Provider` of Oidc; the
-- server of WebClient is any function of what it has been sent. What the probes of Health find comes
-- from outside, and so does the answer of S3 to an upload of ExpensesPage.
--
-- Fuel. `claim` of Idempotency calls itself again after it has removed an expired record; its fuel is
-- the number of attempts, of which it needs two: one expired record can be in its way. The digits
-- of an amount are at most 20.
--
-- Not modelled: row level security in the database, the queue's retries, Express and the JWT
-- library, reading routes and validation of bodies, log lines, the other pages of the web client
-- and what pages show. Requests of the API run one after the other; the tests of ids, states and
-- versions within the writing transactions are modelled as they stand.
pub mod Approvals
pub mod Audit
pub mod AuthController
pub mod Common
pub mod Database
pub mod Endpoints
pub mod Expenses
pub mod ExpensesPage
pub mod Health
pub mod Idempotency
pub mod Mail
pub mod Metrics
pub mod Notifications
pub mod Observability
pub mod Oidc
pub mod Permissions
pub mod Policies
pub mod RateLimits
pub mod Receipts
pub mod Reports
pub mod Schema
pub mod Sessions
pub mod Tests
pub mod Traces
pub mod Users
pub mod WebClient
pub mod Workflow
