-- ===== src/Lib.antt =====
-- Two-way synchronisation of invoices and payments between an internal ledger and an accounting
-- system.
--
-- Notifications of a change, from either side, are published to a durable queue (queue/); a worker
-- (workers/syncWorker.ts) claims them one at a time under a lease, runs the synchronisation pipeline
-- on each, and acknowledges, puts off or buries it. The pipeline compares both sides with the
-- snapshot of the last synchronisation (models/invoice.ts) and resolves conflicts
-- (services/conflictResolver.ts). All paths here are under src/ of the repository,
-- except deploy/, which is at its root.
--
-- Which file models what:
--   Money, Decimal   models/money.ts: centsToDecimalString, decimalStringToCents
--   Json, Invoice    models/invoice.ts: the canonical types, toComparable, stableStringify,
--                    snapshotHash, paymentReferenceCode
--   Resolver         services/conflictResolver.ts: resolve; Resolver/Policy is the policy of its
--                    header comment as a relation
--   Errors           providers/errors.ts; a call that throws returns `err` with the error
--   Queue            queue/eventQueue.ts and queue/pgEventQueue.ts: a table of rows and the next
--                    value of its sequence. One transaction is one function; Queue/Invariant has
--                    the operations as a step relation, so that any interleaving of workers,
--                    publishers and administrators is a sequence of steps
--   Audit            models/repositories/auditRepository.ts: record, list
--   Ledger           models/repositories/internalInvoiceRepository.ts: the tables and readings here,
--                    Ledger/Editing and Ledger/Applying the operations
--   Links            models/repositories/entityLinkRepository.ts
--   Provider         providers/accountingProvider.ts as a record of operations over a state of the
--                    provider's own; Provider/Fake is providers/fake/fakeProvider.ts
--   Sync             services/syncService.ts: Sync/Resolving is applyResolution, Sync/Invoices and
--                    Sync/Payments the handlers, Sync/Pipeline is processEvent
--   Action           asynchronous code over a state that may throw
--   Worker           workers/syncWorker.ts: drain, tick, processClaimed, handleError, backoffDelay;
--                    the pipeline is a parameter, which Sync/Working fills
--   Tokens, Items    models/repositories/providerTokenRepository.ts and itemMappingRepository.ts
--   QuickBooks       providers/quickbooks/: the records that are sent and read, and the state; then
--                    QuickBooks/Auth is qboAuth.ts, QuickBooks/Client qboClient.ts (its rate limit
--                    in QuickBooks/Pacing), QuickBooks/Mapper qboMapper.ts (what it reads of a
--                    record alone in QuickBooks/Fields), QuickBooks/Port qboProvider.ts, which
--                    fills the record of Provider
--   Numbers          the numbers of JSON as the mapper uses them, with toFixed(2) and Math.round
--   Texts, Urls      toLowerCase, includes, replace; encodeURIComponent and URLSearchParams
--   Webhooks         the notifications of a provider, parseWebhook, verifyWebhookSignature
--   Controllers      server.ts: the error handler; Controllers/Webhooks is
--                    controllers/webhookController.ts, Controllers/Invoices is
--                    controllers/invoiceController.ts with services/webhookEmitter.ts
--   Views            views/
--   Switch           deploy/webhook-switch/server.mjs, which stands in front of the webhooks of a
--                    deployment: Switch/Control is handleControl and the dispatch, Switch/Deliveries
--                    handleWebhook and forward, Switch/Headers outboundHeaders; Switch/Steps has its
--                    runs, in which requests and the ends of forwarded calls come in any order, until
--                    an exception that nothing handles stops the process
--
-- Conventions. Amounts in cents are integers; a quantity is one too, since the arithmetic of
-- fractions is the language's. A date is its milliseconds, or none where it is invalid. Texts that
-- the program takes apart are lists of code points, which agrees with UTF-16 code units on the
-- characters that the program looks for. A number of JSON is a decimal fraction, with exact
-- arithmetic. The calls of the QuickBooks adapter follow one another; what it sends to the two
-- endpoints is answered by parameters, over a state of the service's own, which may also not answer.
-- JSON.parse, the HMAC, `randomBytes`, the parsing and printing of dates and zod's tests of a UUID
-- and of an address are parameters. The interpolated values in the messages of errors are left
-- out, except the worker's. Clocks, `Math.random()` and the rows that other transactions have locked
-- are arguments of the operations that read them; `ORDER BY … LIMIT 1 … SKIP LOCKED` is the first
-- row that is not held. An operation of the internal system or of the links reads its clock and its
-- random ids once. Of the ways in which a statement of the database can fail, the constraints of the
-- internal system and of the links are modelled; the queue and the audit log take every write. Ids
-- of records are well formed.
--
-- Bounds. `drain` runs at most 1000 rounds, as in the source; Worker/Progress shows when they
-- suffice. `to_digits` takes one more step than its argument, and a number has at most as many
-- digits as its value, or one.
--
-- Not modelled: SHA-256 and the printing of a number (parameters), the polling loop of the worker
-- (timers), calls of the QuickBooks adapter that overlap and share one refresh of the tokens, the
-- base64 of its credentials, the administration, authorisation and page controllers
-- (controllers/adminController.ts, qboAuthController.ts, uiController.ts), the registration of routes
-- (routes/), the page (public/), the reading of the environment (config.ts), the process entry
-- (index.ts), and the database connection and migrations (models/db/), whose constraints are in the
-- models of the tables.
pub mod Common
pub mod Decimal
pub mod Errors
pub mod Money
pub mod Numbers
pub mod Tokens
pub mod Items
pub mod Urls
pub mod Texts
pub mod QuickBooks
pub mod Webhooks
pub mod Controllers
pub mod Views
pub mod Switch
pub mod Json
pub mod Invoice
pub mod Resolver
pub mod Queue
pub mod Audit
pub mod Worker
pub mod Action
pub mod Ledger
pub mod Links
pub mod Provider
pub mod Sync
