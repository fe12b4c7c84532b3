-- ===== src/Store/Effects.antt =====
-- What a successful write has done to the tables (infra/postgres).
use distributed_wallet_api.Prelude.{
  ◌≡◌, refl, false, Option, none, some, [], ◌∷◌, ◌++◌, arith, ℤ, ok,
}
use distributed_wallet_api.Wallet.{Wallet}
use distributed_wallet_api.Transaction.{WagerTransaction, is_terminal}
use distributed_wallet_api.Events.{Envelope}
use distributed_wallet_api.Store.Tables.{Database, find_row, update_rows, has_transaction_id}
use distributed_wallet_api.Store.Repositories.{
  at_version, with_balance, write_balance, update_balance, with_outcome, write_outcome,
  update_transaction, save_event,
}

pub update_balance-effect :
    (w : Wallet) (expected : ℤ) (db : Database) {r : Unit {0}} {db' : Database}
    → update_balance w expected db ≡ ok (r, db')
    → db'
      ≡ record db { wallets = update_rows (at_version w.id expected) (with_balance w) db.wallets }
unfolding update_balance
update_balance-effect w expected db {r} {db'} e =
    go (find_row (at_version w.id expected) db.wallets) e
  where
    go :
        (o : Option Wallet)
        → write_balance w expected o db ≡ ok (r, db')
        → db' ≡ record db {
          wallets = update_rows (at_version w.id expected) (with_balance w) db.wallets;
        }
    go none e = cc
    go (some old) e = ground arith

-- The row that an update of a transaction writes is not terminal.
pub update_transaction-effect :
    (t : WagerTransaction) (db : Database) {r : Unit {0}} {db' : Database}
    → update_transaction t db ≡ ok (r, db')
    → (old : WagerTransaction) × (find_row (has_transaction_id t.id) db.transactions ≡ some old)
      × (is_terminal old.state ≡ false)
      × (db' ≡ record db {
        transactions = update_rows (has_transaction_id t.id) (with_outcome t) db.transactions;
      })
unfolding update_transaction
update_transaction-effect t db {r} {db'} e =
    go (find_row (has_transaction_id t.id) db.transactions) refl e
  where
    go :
        (o : Option WagerTransaction)
        → find_row (has_transaction_id t.id) db.transactions ≡ o
        → write_outcome t o db ≡ ok (r, db')
        → (old : WagerTransaction) × (find_row (has_transaction_id t.id) db.transactions ≡ some old)
          × (is_terminal old.state ≡ false)
          × (db' ≡ record db {
            transactions = update_rows (has_transaction_id t.id) (with_outcome t) db.transactions;
          })
    go none f e = cc
    go (some old) f e = (old, f, ground arith, ground arith)

pub save_event-effect :
    (x : Envelope) (db : Database) {r : Unit {0}} {db' : Database}
    → save_event x db ≡ ok (r, db')
    → db' ≡ record db { outbox = db.outbox ++ x ∷ [] }
unfolding save_event
save_event-effect x db e = ground arith
