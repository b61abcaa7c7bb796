-- ===== src/Lib.antt =====
-- The wagering processor: providers send bets, wins, losses, refunds and rollbacks over HTTP or
-- SQS, and each is applied at most once to a player's wallet, with a ledger of every movement of
-- the balance. Paths are from the repository's root.
--
-- The parts, and the files that model them:
--
--   src/domain/money: Money and its operations (Money), the texts it accepts (Money/Amount), the
--   texts with two decimal places (Money/Text), decimal.js as an interface (Money/Decimal) with a
--   model of it on hundredths (Money/Cents).
--   src/domain/wallet: the wallet's movements (Wallet) and the ledger entries (Wallet/Entry).
--   src/domain/wagering: the vocabulary, the factories and the transitions of a transaction
--   (Wagering, Wagering/Transaction).
--   src/domain/messaging: events, inbox and outbox messages (Messaging).
--   src/application: errors (Application/Fault), the payload hash (Application/CanonicalJson,
--   Application/Payload), the atomic boundary (Application/Action).
--   src/infrastructure/persistence/mikro-orm: the tables and their unique indexes
--   (Persistence/Store, Persistence/Tables), the numeric columns (Persistence/Columns), the
--   repositories (Persistence/Repositories, Persistence/OutboxRows, Persistence/InboxRows), the
--   pages of a ledger (Persistence/LedgerPages), the rows of the ORM (Persistence/Entities) and
--   their mappers (Persistence/Mappers).
--   src/application/use-cases: wager-processing.ts (UseCases/Processing), process-wager-
--   transaction (UseCases/Command, UseCases/Settlement, UseCases/Process), reprocess-pending-
--   references (UseCases/Reprocessing), create-wallet (UseCases/Creation), reconcile-wallet
--   (UseCases/Reconciliation), the queries (UseCases/Queries), publish-outbox
--   (UseCases/Publication), whose cycle is not part of a history. A history of requests to the
--   first three and to the consumer (UseCases/History).
--   src/infrastructure/auth and src/infrastructure/http/guards: the signature of a request
--   (Auth/Hmac), the guard (Auth/Guard), the text that is signed (Auth/Canonical).
--   src/infrastructure/http: the POST of a transaction and the exception filter (Http), the other
--   routes (Http/Routes).
--   src/infrastructure/messaging/sqs: the request in a message and its command (Consumer/Message),
--   the calls of SQS (Consumer/Sqs), one message and one cycle (Consumer), the publisher of events
--   (Messaging/Publisher).
--   src/infrastructure/workers and src/infrastructure/messaging/outbox: the steps of a worker
--   (Workers).
--
-- How they interact: execute of the use case runs as an action on the store; it asks the
-- repositories for the wallet and for earlier transactions, lets the domain objects decide, saves
-- what they return and enqueues their events in the outbox. A method that mutates an object
-- returns the new object; a method that throws returns an error as a value. An action carries the
-- store and the number of ids drawn; run commits what it wrote or rolls it back. The files
-- UseCases/Matching, UseCases/Posting, UseCases/Accounting, UseCases/Recording,
-- UseCases/Idempotency, UseCases/Process/Commanded and Effects, UseCases/Conservation and the
-- files in UseCases/Reprocessing and UseCases/Creation hold proofs, as do
-- UseCases/Publication/Relay, Consumer/Handling, Consumer/Batch, Consumer/Polling,
-- UseCases/Directions, Consumer/Redelivery, Application/Keeping, UseCases/Publication/Backlog,
-- Persistence/LedgerPages/Order and Walk, Persistence/Sorting, Persistence/Rows, Persistence/Laws,
-- UseCases/Queries/Answers, UseCases/Reconciliation/Balance, UseCases/History/Reconciled,
-- Money/RoundTrip, Auth/Access, Http/Submission, Workers/Exclusion, Persistence/Mappers/RoundTrip,
-- Application/Rules, Wallet/Movements, Wallet/Replay, Money/Laws, Wagering/Transaction/Lifecycle,
-- Progress and Retries, and Messaging/Outbox/Delivery. The Examples and Samples files hold
-- concrete runs.
--
-- Parameters: decimal.js with its documented exactness below 10 ^ 40 hundredths (40 significant
-- digits), SHA-256 and its HMAC, toUpperCase and Number of the platform, the broker's answer to
-- each call, what JSON.parse and the schemas of zod make of a body, the order of ids and the text
-- of a cursor, the texts of errors, the clock's reading of a call, and the stream of generated
-- ids. Amounts of the store are below 10 ^ 20 hundredths, the range of numeric(20,2), so sums of
-- two stay exact.
--
-- Bounds: a client's walk through the pages of a ledger runs on fuel, for which one page more than
-- the wallet has entries is shown to be enough, and so do the digits of a number, for which the
-- number and one is shown to be enough; every other function is structural. Times are milliseconds
-- as natural numbers.
--
-- Not modelled: the texts of error messages; ISO texts of times; foreign keys and row checks of
-- the database (the checks on a transaction's row are stated as IsConsistent,
-- Wagering/Transaction/Lifecycle); the row lock, whose effect is that calls on a wallet follow one
-- another; exceptions of the database driver other than unique violations and amounts out of
-- range. The store keeps rows as the domain objects that they stand for. The routes of health and
-- metrics, the endless loop of the SQS consumer, the reading of the configuration, logs, metrics
-- and wiring are left out.
pub mod Application
pub mod Auth
pub mod Common
pub mod Consumer
pub mod Errors
pub mod Http
pub mod Messaging
pub mod Money
pub mod Persistence
pub mod UseCases
pub mod Wagering
pub mod Wallet
pub mod Workers
