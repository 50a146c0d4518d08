-- ===== src/Lib.antt =====
-- A model of the payment orchestrator's core (internal/), and what it keeps.
--
-- The program takes requests for payments, picks a payment service provider (PSP) for each, talks to
-- it, and keeps the payments, their state transitions, a double-entry ledger and the webhooks that
-- PSPs send in one SQL database. The parts, and the files that model them:
--   Payment          internal/models/payment.go, internal/service/statemachine.go: the statuses and
--                    the table of legal changes, which the services ask before they change one.
--   CircuitBreaker   internal/pkg/circuitbreaker/circuitbreaker.go: one breaker for each PSP.
--   Router           internal/service/router.go, internal/models/routing.go: the choice of a PSP by
--                    preference, rules and breakers; it owns the adapters and the breakers.
--   Retry            internal/pkg/retry/retry.go: the loop around a PSP call.
--   Store            the rows (internal/models, migrations), the tables with their constraints, the
--                    interface of a PSP (internal/adapter/psp.go), the state and the errors of a
--                    service method, transactions, and the audit trail (Store/History).
--   PaymentService   internal/service/payment.go: create, get, capture, refund, cancel.
--   Ledger           internal/service/ledger.go: posting and balances. Ledger/Balance defines the
--                    balance sheet: assets and expenses less liabilities and revenue.
--   Webhook          internal/service/webhook.go: reception, duplicates, the three handlers. It uses
--                    the entries of Ledger and the status changes of PaymentService.
--   Reconciliation   internal/service/reconciliation.go: the batch that compares a day with a PSP.
--   Adapters         internal/adapter: Adapters/Razorpay (razorpay.go), Adapters/Stripe (stripe.go) and
--                    Adapters/Mock (mock.go) as providers for the services.
--   Dashboard        internal/service/dashboard.go: the numbers of a period (Dashboard itself), the
--                    health of the providers, the pages, also of ledger entries, and the feed,
--                    which always fails.
--   Config, Startup  internal/config/config.go, and cmd/server/main.go up to its serving: the environment,
--                    the first router and the API keys, which Middleware/Auth reads.
--   Metrics          internal/pkg/metrics/metrics.go: counters, gauges and histograms.
--   System           the services together: any sequence of their calls, with others in between.
--   DeadLetters      internal/service/dlq.go: the queue of webhooks in Redis, and the retry of one,
--                    which calls Webhook.
--   Middleware       internal/middleware: Middleware/Idempotency (idempotency.go), also as a system of
--                    overlapping requests; Middleware/RateLimit (ratelimit.go); Middleware/RealIp
--                    (realip.go), whose address the limiter counts for; Middleware/Auth (auth.go),
--                    whose merchant the handlers read; Middleware/Headers (cors.go, security.go);
--                    Middleware/Logging (logging.go).
--   Handlers         internal/handler: Handlers/Payments (payment.go) on top of PaymentService,
--                    Handlers/Webhooks (webhook.go) on top of Webhook, Handlers/Dlq (dlq.go)
--                    on top of DeadLetters; Handlers/Balances (ledger.go), Handlers/Reconciliation
--                    (reconciliation.go), Handlers/Panels (dashboard.go, and the page of ledger.go) on
--                    top of Dashboard, Handlers/Health (health.go); internal/pkg/response.
--   Subscriber       internal/pubsub: the messages that carry webhooks, how they are published, and how
--                    each is answered.
--   Base             helpers: integers, int64 with wrap-around, maps as association lists, texts,
--                    decimal numbers.
--   Tests            test data, and the theorems at concrete inputs.
--
-- A service method is a function of a `World` to a result and the next `World`: the tables, the
-- router, the PSP calls made, the events published, and a number that counts the calls to the
-- outside. What a call meets (whether the database fails, the clock, a new identifier, a provider's
-- reply, the order of a walk over a Go map) is a function of that number, so that a theorem for every
-- world is one for every outcome. Names are those of the code in snake case; a method that is long
-- is cut into its transaction (`_in_tx`), the body of that (`_body`) and the rest.
--
-- Assumptions. A statement that fails has no effect, and a transaction that does not commit has
-- none. A row lock makes a transaction one step; where the code holds no lock while it calls a
-- provider, what other requests do in between is an argument, `others`. The constraints on the
-- refunded total, on one-sided entries, on the primary key of payments, and on the idempotency
-- keys, types and lengths of the texts of webhook events are modelled. Foreign keys, the lengths of
-- other texts, and the primary keys of rows that get a new UUID as they are inserted (transitions,
-- ledger transactions and entries, events, batches) are not: such a UUID is taken not to be there
-- yet. All clock readings of one `Route` are one instant, and no breaker changes meanwhile. Texts
-- of errors are dropped. A JSON number stands for its int64 conversion. `json.Unmarshal`, the UUID
-- of a payload, `time.Parse`, and what PostgreSQL reads as a UUID or as JSONB are parameters; where
-- a service says "not found" for any error of its first query, an identifier that is no UUID is one
-- that is not there. A column that is NULL is `none`, and reading one into a Go string is an error.
-- Integers of the code are ℤ, with `add64` and `sub64` where it adds or subtracts; counters of rows
-- and of retries are ℕ.
-- The retry loop is recursion on the rounds that its limit allows, which is all that it can make;
-- every other loop is recursion on a list.
-- Redis: each command is one step and has its documented effect, or fails and has none. In Middleware
-- the keys are a map, and no key expires while the requests of a theorem run; in DeadLetters the
-- commands are a parameter (`Redis`), and what is documented of them a hypothesis (`IsDocumented`).
-- A mutex makes a method of the limiter, and of the tracker of failed logins, one step; the
-- middleware around the tracker is two, between which others run (Middleware/Auth/Overlap), and in
-- Middleware/Auth/Lockout requests come one after the other. The JSON coder, the decoded body of a
-- request, its headers and its path parameters are arguments, and an HTTP answer is its status with
-- its code or its data.
--
-- The SDKs of the providers, HMAC-SHA256, the client of Pub/Sub, the parser of floats and of dates, the
-- lookup in the environment and the time zones are parameters. A rate or an average of the dashboard is
-- kept as the numbers that it is the quotient of, and floats are compared and added by parameters. In
-- System a batch of the reconciliation and a delivery of a webhook are one step each.
--
-- Not modelled: the set-up of Pub/Sub topics and of connections, migrations, the graceful shutdown, the
-- body limit, the backoff's duration and the latency of the mock, the text format of the metrics and
-- the runtime's numbers, tracing, and logs but for their sanitizing: they are I/O, or calls of
-- third-party code.
pub mod Base
pub mod Payment
pub mod CircuitBreaker
pub mod Router
pub mod Retry
pub mod Store
pub mod PaymentService
pub mod Ledger
pub mod Webhook
pub mod Reconciliation
pub mod DeadLetters
pub mod Handlers
pub mod Subscriber
pub mod Middleware
pub mod Adapters
pub mod Config
pub mod Startup
pub mod Dashboard
pub mod Metrics
pub mod System
mod Tests
