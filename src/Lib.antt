-- ===== src/Lib.antt =====
-- A model of the wallet service: a wallet per player and currency, the operations that game
-- providers send (bets, wins, losses, refunds and rollbacks), the ledger and the events that they
-- leave, and the PostgreSQL tables that hold it all.
--
-- The parts, and the code that they follow (paths from the repository's root):
-- - Prelude: texts as lists of bytes, identifiers and instants as numbers (0 is the nil UUID and
--   the zero time), integers, the sentinel errors and a result type.
-- - Money: cmd/internal/domain/money.go. Cents are integers; the sums of the code are reduced to
--   int64 by `wrap64`, where Go wraps around. Money.Decimal has ParseMoney and AmountString, with
--   the decimal numerals of strconv as digits of a number.
-- - Wallet: cmd/internal/domain/wallet.go. A method that mutates the wallet returns it.
-- - Transaction: cmd/internal/domain/wager-transaction.go. Transaction.Kind has the enumerations,
--   Entity and Restore the constructors, Transitions the methods; Transaction.Invariant has what
--   storage accepts and the step relation of the methods.
-- - Ledger: cmd/internal/domain/wallet-ledger-entry.go. Ledger.Chain says what a history of entries
--   is that starts at one balance and ends at another.
-- - Events: cmd/internal/events. The data of an event is kept as a value, not as JSON; whether a
--   text is valid JSON is a parameter.
-- - Store: cmd/internal/infra/postgres. A database is its tables as lists; Store.Repositories has
--   one function per SQL statement, with the constraints and triggers of migrations/ that it meets,
--   Store.Monad the environment and the SQL transaction of unit-of-work.go.
-- - Process, OpenWallet and Resume: cmd/internal/usecase, written over Store in the order of the
--   code's calls.
-- - Idempotency: cmd/internal/pkg/idempotency/hash.go over a tree of decoded JSON.
-- - Messaging: cmd/internal/events/inbound-message.go, and wager-handler.go and consumer.go of
--   cmd/internal/infra/messaging. The decoded members of a body are a parameter.
-- - Queries and Reconcile: the reads of infra/postgres/query-repository.go and the reconciliation of
--   usecase/queries.go, as functions of the state of the database that they see.
-- - Pages: the ledger pages of cmd/internal/infra/http/wallet-handler.go, with their cursors.
-- - Delivery: the publisher's side of the outbox, infra/postgres/outbox-repository.go and one round
--   of infra/worker/outbox-publisher.go. Its table has the delivery columns, which the database of
--   the use cases leaves out; the record `Channel` gives the clock, the failures, the answers of the
--   queue and what the other instances do between two calls. A statement of the publisher that
--   fails is taken not to have taken effect.
-- - Backoff: `backoffDelay` of cmd/internal/infra/worker/outbox-publisher.go.
-- - Tests: a small scenario and concrete runs.
--
-- The use cases run in a state of the database and the counters of the environment. The record
-- `Ports` gives the n-th reading of the clock, the n-th identifier, whether the n-th call of the
-- database fails, whether a COMMIT that fails has taken effect all the same, and what the other
-- instances have committed when the n-th SQL transaction begins: a transaction sees that and its own
-- writes, and an error of its body undoes them. The row locks of PostgreSQL are not modelled
-- themselves. They make this faithful for the rows that are locked; what READ COMMITTED lets another
-- instance commit between two statements is left out, which matters for the reads before LockByID
-- and for Expire and OpenWallet, which lock no row. `Valid` (Store.Invariant) is the
-- invariant of the database between two SQL transactions.
--
-- Store.Checks has the widths of the text columns, in characters, and the CHECK constraints that an
-- insert or an update of a transaction, an insert into the ledger and a registration meet. An instant
-- counts whole microseconds, the resolution of TIMESTAMPTZ: the finer digits that the clock of Go
-- has, and that storage cuts off, are not modelled.
--
-- No loop needs fuel: the retries of `runWithRetry` are counted down from `maxConflictRetries`,
-- the numeral of n has at most n digits, and all else recurs on lists. Not modelled: the texts
-- of JSON, the cancellation of contexts, the statistics of the outbox, the claims of waiting
-- references, the rest of HTTP, the polling of the queue, configuration and metrics.
pub mod Prelude
pub mod Money
pub mod Wallet
pub mod Transaction
pub mod Ledger
pub mod Events
pub mod Store
pub mod Process
pub mod OpenWallet
pub mod Resume
pub mod Backoff
pub mod Tests
pub mod Queries
pub mod Reconcile
pub mod Delivery
pub mod Idempotency
pub mod Messaging
pub mod Pages
