-- ===== src/Store/Invariant.antt =====
-- The invariant of the database between two SQL transactions, and the statements that read it.
use distributed_wallet_api.Prelude.{
  ℕ, ◌≤◌, ◌≡◌, ◌≢◌, refl, true, ◌==◌, if◌then◌else◌, Option, none, some, List, [], ◌∷◌, arith, pos,
  Text, Uuid, nil_uuid, ok,
}
use distributed_wallet_api.Money.{IsInt64, is_valid_iso4217}
use distributed_wallet_api.Wallet.{Wallet}
use distributed_wallet_api.Wallet.Movements.{IsWallet}
use distributed_wallet_api.Transaction.{WagerTransaction}
use distributed_wallet_api.Transaction.Invariant.{IsTransaction}
use distributed_wallet_api.Ledger.{WalletLedgerEntry}
use distributed_wallet_api.Ledger.Chain.{Chain}
use distributed_wallet_api.Store.Tables.{
  Database, find_row, any_row, has_owner, has_wallet_id, has_transaction_id, has_external_id,
  reverses,
}
use distributed_wallet_api.Store.RoundTrip.{scan_wallet_lem, scan_transaction_lem}
use distributed_wallet_api.Store.Repositories.{
  read_wallet, read_transaction, find_by_player_and_currency, lock_by_id, find_by_id,
  find_by_provider_and_external_id, with_outcome,
}
use distributed_wallet_api.Store.Search.{All, Distinct, count_rows, All-find}

-- The history of a wallet, in the order in which it was written.
abbrev pub entries_of : Uuid → List WalletLedgerEntry → List WalletLedgerEntry
entries_of id [] = []
entries_of id (e ∷ es) = if e.wallet_id == id then e ∷ entries_of id es else entries_of id es

-- A wallet whose balance is where its history leads, from nothing on.
pub record WalletOk (ledger : List WalletLedgerEntry) (w : Wallet) : Type 0 where
  pub wallet : IsWallet w
  pub iso : is_valid_iso4217 w.balance.currency ≡ true
  pub history : Chain w.balance.currency (pos 0) (entries_of w.id ledger) w.balance.cents

pub record TransactionOk (t : WagerTransaction) : Type 0 where
  pub entity : IsTransaction t
  pub iso : is_valid_iso4217 t.money.currency ≡ true
  pub in_range : IsInt64 t.money.cents

abbrev pub wallet_key : Wallet → ℕ
wallet_key w = w.id

abbrev pub transaction_key : WagerTransaction → ℕ
transaction_key t = t.id

pub record Valid (db : Database) : Type 0 where
  pub wallets : All (WalletOk db.ledger) db.wallets
  pub wallet_ids : Distinct wallet_key db.wallets
  pub transactions : All TransactionOk db.transactions
  pub transaction_ids : Distinct transaction_key db.transactions
  pub reversals : (r : Uuid) → r ≢ nil_uuid → count_rows (reverses r) db.transactions ≤ 1
  pub postings : All (λ e. any_row (has_wallet_id e.wallet_id) db.wallets ≡ true) db.ledger

-- The database holds the transaction, up to the columns that a transition changes.
pub record Holds (db : Database) (t : WagerTransaction) : Type 0 where
  pub stored : WagerTransaction
  pub found : find_row (has_transaction_id t.id) db.transactions ≡ some stored
  pub same : with_outcome t stored ≡ t

read_wallet-ok :
    (o : Option Wallet) (db : Database) {w : Wallet} {db' : Database}
    → ((v : Wallet) → o ≡ some v → WalletOk db.ledger v)
    → read_wallet o db ≡ ok (w, db')
    → (db' ≡ db) × (o ≡ some w)
read_wallet-ok none db good e = cc
read_wallet-ok (some v) db good e =
    ground (arith, scan_wallet_lem v (good v refl).wallet (good v refl).iso)

read_transaction-ok :
    (o : Option WagerTransaction) (db : Database) {t : WagerTransaction} {db' : Database}
    → ((v : WagerTransaction) → o ≡ some v → TransactionOk v)
    → read_transaction o db ≡ ok (t, db')
    → (db' ≡ db) × (o ≡ some t)
read_transaction-ok none db good e = cc
read_transaction-ok (some v) db good e =
    ground (arith, scan_transaction_lem v (good v refl).entity (good v refl).iso)

-- The lock returns a stored wallet as it was written.
pub lock_by_id-ok :
    (id : Uuid) (db : Database) {w : Wallet} {db' : Database}
    → Valid db
    → lock_by_id id db ≡ ok (w, db')
    → (db' ≡ db) × (find_row (has_wallet_id id) db.wallets ≡ some w)
unfolding lock_by_id
lock_by_id-ok id db v e =
    read_wallet-ok (find_row (has_wallet_id id) db.wallets) db
      (λ w f. All-find (WalletOk db.ledger) (has_wallet_id id) db.wallets v.wallets f) e

pub find_by_id-ok :
    (id : Uuid) (db : Database) {t : WagerTransaction} {db' : Database}
    → Valid db
    → find_by_id id db ≡ ok (t, db')
    → (db' ≡ db) × (find_row (has_transaction_id id) db.transactions ≡ some t)
unfolding find_by_id
find_by_id-ok id db v e =
    read_transaction-ok (find_row (has_transaction_id id) db.transactions) db
      (λ t f. All-find TransactionOk (has_transaction_id id) db.transactions v.transactions f) e

pub find_by_provider_and_external_id-ok :
    (provider external : Text) (db : Database) {t : WagerTransaction} {db' : Database}
    → Valid db
    → find_by_provider_and_external_id provider external db ≡ ok (t, db')
    → (db' ≡ db) × (find_row (has_external_id provider external) db.transactions ≡ some t)
unfolding find_by_provider_and_external_id
find_by_provider_and_external_id-ok provider external db v e =
    read_transaction-ok (find_row (has_external_id provider external) db.transactions) db
      (λ t f.
        All-find TransactionOk (has_external_id provider external) db.transactions v.transactions f)
      e

pub find_by_player_and_currency-ok :
    (player : Uuid) (currency : Text) (db : Database) {w : Wallet} {db' : Database}
    → Valid db
    → find_by_player_and_currency player currency db ≡ ok (w, db')
    → db' ≡ db
unfolding find_by_player_and_currency
find_by_player_and_currency-ok player currency db v e =
    (read_wallet-ok (find_row (has_owner player currency) db.wallets) db
      (λ w f. All-find (WalletOk db.ledger) (has_owner player currency) db.wallets v.wallets f) e).0
