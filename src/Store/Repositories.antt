-- ===== src/Store/Repositories.antt =====
-- The repositories. A statement takes the database to its result and the database after it; an
-- error aborts the SQL transaction, so it carries no database.
use distributed_wallet_api.Prelude.{
  Bool, not, ◌&&◌, ◌||◌, ◌==◌, ltb, if◌then◌else◌, Option, none, some, [], ◌∷◌, ◌++◌, ◌+◌, ℤ, pos,
  ◌+ℤ◌, ltb_ℤ, eqb_ℤ, Uuid, is_nil, Time, before, Text, text_eq, Result, ok, err, ◌>>=◌, ◌>>◌,
  fail_if, wallet_not_found, wallet_already_exists, transaction_not_found, concurrent_update,
  message_conflict, infrastructure,
}
use distributed_wallet_api.Money.{is_valid_iso4217, is_negative}
use distributed_wallet_api.Wallet.{Wallet, initial_version}
use distributed_wallet_api.Transaction.{
  WagerTransaction, is_terminal, is_opening, is_processed, requires_reference,
}
use distributed_wallet_api.Ledger.{WalletLedgerEntry}
use distributed_wallet_api.Events.{Envelope}
use distributed_wallet_api.Store.Rows.{row_of, scan_transaction, wallet_row_of, scan_wallet}
use distributed_wallet_api.Store.Tables.{
  Database, InboxRow, find_row, any_row, update_rows, has_wallet_id, has_owner, has_transaction_id,
  has_external_id, has_key, opens_wallet, reverses, is_posting, is_message,
}
use distributed_wallet_api.Store.Checks.{
  columns_fit, transaction_checks, ledger_checks, inbox_checks,
}

abbrev pub Statement : Type 0 → Type 0
Statement A = Database → Result (A × Database)

-- A read of one wallet row, or the error for no row.
abbrev pub read_wallet : Option Wallet → Statement Wallet
read_wallet none db = err wallet_not_found
read_wallet (some w) db = scan_wallet (wallet_row_of w) >>= λ w'. ok (w', db)

abbrev pub read_transaction : Option WagerTransaction → Statement WagerTransaction
read_transaction none db = err transaction_not_found
read_transaction (some t) db = scan_transaction (row_of t) >>= λ t'. ok (t', db)

unfoldable pub lock_by_id : Uuid → Statement Wallet
lock_by_id id db = read_wallet (find_row (has_wallet_id id) db.wallets) db

unfoldable pub find_by_player_and_currency : Uuid → Text → Statement Wallet
find_by_player_and_currency player currency db =
    read_wallet (find_row (has_owner player currency) db.wallets) db

-- The CHECK constraints of the table wallets.
abbrev pub wallet_checks : Wallet → Bool
wallet_checks w =
    is_valid_iso4217 w.balance.currency
    && (not (is_negative w.balance)
        && (not (ltb_ℤ w.version initial_version) && not (before w.updated_at w.created_at)))

-- `WalletRepository.Insert`
unfoldable pub insert_wallet : Wallet → Statement (Unit {0})
insert_wallet w db = do
  fail_if (not (wallet_checks w)) infrastructure
  fail_if (any_row (has_wallet_id w.id) db.wallets) infrastructure
  fail_if (any_row (has_owner w.player_id w.balance.currency) db.wallets) wallet_already_exists
  ok (tt, record db { wallets = db.wallets ++ w ∷ [] })

-- The columns that `UpdateBalance` writes into the stored row.
abbrev pub with_balance : Wallet → Wallet → Wallet
with_balance w old = record old {
  balance = record { cents = w.balance.cents; currency = old.balance.currency };
  version = w.version;
  updated_at = w.updated_at;
}

-- The trigger `wallets_guard_update`.
abbrev pub wallet_guard : Wallet → Wallet → Bool
wallet_guard w old =
    if eqb_ℤ w.balance.cents old.balance.cents
    then eqb_ℤ w.version old.version
    else eqb_ℤ w.version (old.version +ℤ pos 1)

abbrev pub at_version : Uuid → ℤ → Wallet → Bool
at_version id version old = old.id == id && eqb_ℤ old.version version

abbrev pub write_balance : Wallet → ℤ → Option Wallet → Statement (Unit {0})
write_balance w expected none db = err concurrent_update
write_balance w expected (some old) db = do
  fail_if (not (wallet_checks (with_balance w old)) || not (wallet_guard w old)) infrastructure
  ok (
    tt,
    record db { wallets = update_rows (at_version w.id expected) (with_balance w) db.wallets },
  )

unfoldable pub update_balance : Wallet → ℤ → Statement (Unit {0})
update_balance w expected db =
    write_balance w expected (find_row (at_version w.id expected) db.wallets) db

-- `FindByID`
unfoldable pub find_by_id : Uuid → Statement WagerTransaction
find_by_id id db = read_transaction (find_row (has_transaction_id id) db.transactions) db

unfoldable pub find_by_provider_and_external_id : Text → Text → Statement WagerTransaction
find_by_provider_and_external_id provider external db =
    read_transaction (find_row (has_external_id provider external) db.transactions) db

-- A row that one of the unique indexes of wager_transactions refuses beside the new one.
abbrev pub collides : WagerTransaction → WagerTransaction → Bool
collides t old =
    has_transaction_id t.id old
    || (has_external_id t.provider_id t.external_transaction_id old
        || (has_key t.provider_id t.idempotency_key old
            || (is_opening t.kind && opens_wallet t.wallet_id old)))

-- The wallet that the foreign key (wallet_id, currency) names.
abbrev pub is_wallet_of : WagerTransaction → Wallet → Bool
is_wallet_of t w = w.id == t.wallet_id && text_eq w.balance.currency t.money.currency

-- `TransactionRepository.Insert`. The constructors resolve no reference, so the index of
-- successful reversals and the foreign key of the reference have nothing to say here.
unfoldable pub insert_transaction : WagerTransaction → Statement (Unit {0})
insert_transaction t db = do
  fail_if (not (columns_fit t && transaction_checks t)) infrastructure
  fail_if (any_row (collides t) db.transactions) concurrent_update
  fail_if (not (any_row (is_wallet_of t) db.wallets)) infrastructure
  ok (tt, record db { transactions = db.transactions ++ t ∷ [] })

-- The columns that `Update` writes into the stored row.
abbrev pub with_outcome : WagerTransaction → WagerTransaction → WagerTransaction
with_outcome t old = record old {
  state = t.state;
  reference_transaction_id = t.reference_transaction_id;
  failure_code = t.failure_code;
  result_balance = t.result_balance;
  updated_at = t.updated_at;
}

-- The trigger `wager_transactions_guard_update`, as far as these columns go.
abbrev pub transaction_guard : WagerTransaction → WagerTransaction → Bool
transaction_guard t old =
    not (is_terminal old.state)
    && (is_nil old.reference_transaction_id
        || old.reference_transaction_id == t.reference_transaction_id)

-- The index of successful reversals, against another row.
abbrev pub reversal_collides : WagerTransaction → WagerTransaction → Bool
reversal_collides t other =
    not (other.id == t.id)
    && (is_processed t.state
        && (requires_reference t.kind
            && (not (is_nil t.reference_transaction_id)
                && reverses t.reference_transaction_id other)))

abbrev pub write_outcome : WagerTransaction → Option WagerTransaction → Statement (Unit {0})
write_outcome t none db = err transaction_not_found
write_outcome t (some old) db = do
  fail_if (not (transaction_guard t old && transaction_checks (with_outcome t old))) infrastructure
  fail_if (any_row (reversal_collides t) db.transactions) concurrent_update
  ok (
    tt,
    record db {
      transactions = update_rows (has_transaction_id t.id) (with_outcome t) db.transactions;
    },
  )

-- `TransactionRepository.Update`
unfoldable pub update_transaction : WagerTransaction → Statement (Unit {0})
update_transaction t db = write_outcome t (find_row (has_transaction_id t.id) db.transactions) db

unfoldable pub has_processed_reversal : Uuid → Statement Bool
has_processed_reversal reference_id db = ok (any_row (reverses reference_id) db.transactions, db)

abbrev pub same_entry_id : Uuid → WalletLedgerEntry → Bool
same_entry_id id e = e.id == id

abbrev pub is_ledger_wallet : WalletLedgerEntry → Wallet → Bool
is_ledger_wallet e w = w.id == e.wallet_id && text_eq w.balance.currency e.amount.currency

-- `LedgerRepository.Insert`. The rows are in the order of `seq`.
unfoldable pub insert_ledger : WalletLedgerEntry → Statement (Unit {0})
insert_ledger e db = do
  fail_if (not (ledger_checks e)) infrastructure
  fail_if (any_row (same_entry_id e.id) db.ledger) infrastructure
  fail_if (any_row (is_posting e.wallet_id e.transaction_id) db.ledger) concurrent_update
  fail_if
      (not (any_row (is_ledger_wallet e) db.wallets)
        || not (any_row (has_transaction_id e.transaction_id) db.transactions))
      infrastructure
  ok (tt, record db { ledger = db.ledger ++ e ∷ [] })

abbrev pub same_event_id : Uuid → Envelope → Bool
same_event_id id e = e.id == id

-- `OutboxRepository.Save`
unfoldable pub save_event : Envelope → Statement (Unit {0})
save_event e db = do
  fail_if (any_row (same_event_id e.id) db.outbox) infrastructure
  ok (tt, record db { outbox = db.outbox ++ e ∷ [] })

pub data InboxStatus : Type 0 where
  inbox_new inbox_in_progress inbox_completed : InboxStatus

abbrev pub count_attempt : InboxRow → InboxRow
count_attempt r = record r { attempts = r.attempts + 1 }

abbrev pub status_of : Option Time → InboxStatus
status_of none = inbox_in_progress
status_of (some _) = inbox_completed

abbrev pub first_delivery : Text → Text → Text → Time → InboxRow
first_delivery consumer message_id payload_hash now = record {
  consumer_name = consumer;
  message_id = message_id;
  payload_hash = payload_hash;
  received_at = now;
  completed_at = none;
  attempts = 1;
}

abbrev pub register_row : Text → Text → Text → Time → Option InboxRow → Statement InboxStatus
register_row consumer message_id payload_hash now none db = ok (
  inbox_new,
  record db { inbox = db.inbox ++ first_delivery consumer message_id payload_hash now ∷ [] },
)
register_row consumer message_id payload_hash now (some r) db = do
  fail_if (not (text_eq r.payload_hash payload_hash)) message_conflict
  ok (
    status_of r.completed_at,
    record db { inbox = update_rows (is_message consumer message_id) count_attempt db.inbox },
  )

unfoldable pub register : Text → Text → Text → Time → Statement InboxStatus
register consumer message_id payload_hash now db = do
  fail_if (not (inbox_checks consumer message_id payload_hash)) infrastructure
  register_row consumer message_id payload_hash now
      (find_row (is_message consumer message_id) db.inbox) db

-- `completed_at = GREATEST(now, received_at)`, where it is still NULL.
abbrev pub completed : Time → InboxRow → InboxRow
completed now r = elim r.completed_at [
  | none ↦ record r { completed_at = some (if ltb now r.received_at then r.received_at else now) }
  | some _ ↦ r
]

unfoldable pub complete : Text → Text → Time → Statement (Unit {0})
complete consumer message_id now db = ok (
  tt,
  record db { inbox = update_rows (is_message consumer message_id) (completed now) db.inbox },
)
