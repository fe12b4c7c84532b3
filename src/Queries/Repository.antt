-- ===== src/Queries/Repository.antt =====
-- `QueryRepository` (infra/postgres/query-repository.go): reads of the state that they see. A read
-- that the connection fails is not modelled here. The n-th row of the ledger has the n-th number of
-- the identity column `seq`, which is a parameter.
use distributed_wallet_api.Prelude.{
  ltb_ℤ, pos, ℕ, suc, ◌==◌, if◌then◌else◌, List, [], ◌∷◌, Option, none, some, map, take, ℤ, Uuid,
  Time, Text, Result, ok, err, ◌>>=◌, wallet_not_found, transaction_not_found,
}
use distributed_wallet_api.Money.{Money, new_money}
use distributed_wallet_api.Wallet.{Wallet, Direction}
use distributed_wallet_api.Transaction.{WagerTransaction}
use distributed_wallet_api.Ledger.{WalletLedgerEntry, restore_ledger_entry}
use distributed_wallet_api.Store.{
  Database, row_of, scan_transaction, wallet_row_of, scan_wallet, find_row, has_wallet_id,
  has_transaction_id, has_external_id,
}

-- The columns that `ledgerColumns` names.
pub record LedgerRow : Type 0 where
  pub seq : ℕ
  pub id : Uuid
  pub wallet_id : Uuid
  pub transaction_id : Uuid
  pub direction : Direction
  pub currency : Text
  pub amount_cents : ℤ
  pub balance_before_cents : ℤ
  pub balance_after_cents : ℤ
  pub created_at : Time

abbrev pub ledger_row_of : ℕ → WalletLedgerEntry → LedgerRow
ledger_row_of seq e = record {
  seq = seq;
  id = e.id;
  wallet_id = e.wallet_id;
  transaction_id = e.transaction_id;
  direction = e.direction;
  currency = e.amount.currency;
  amount_cents = e.amount.cents;
  balance_before_cents = e.balance_before.cents;
  balance_after_cents = e.balance_after.cents;
  created_at = e.created_at;
}

-- The rows of the ledger from the n-th on, in the order of `seq`.
abbrev pub rows_from : (ℕ → ℕ) → ℕ → List WalletLedgerEntry → List LedgerRow
rows_from seqs n [] = []
rows_from seqs n (e ∷ es) = ledger_row_of (seqs n) e ∷ rows_from seqs (suc n) es

pub record LedgerEntryRow : Type 0 where
  pub sequence : ℕ
  pub entry : WalletLedgerEntry

unfoldable pub scan_ledger_entry : LedgerRow → Result LedgerEntryRow
scan_ledger_entry r = do
  amount ← new_money r.amount_cents r.currency
  before ← new_money r.balance_before_cents r.currency
  after ← new_money r.balance_after_cents r.currency
  entry ← restore_ledger_entry (record {
    id = r.id;
    wallet_id = r.wallet_id;
    transaction_id = r.transaction_id;
    direction = r.direction;
    amount = amount;
    balance_before = before;
    balance_after = after;
    created_at = r.created_at;
  })
  ok (record { sequence = r.seq; entry = entry })

-- The loop `for rows.Next()`, which ends at the first row that is refused.
unfoldable pub scan_rows : List LedgerRow → Result (List LedgerEntryRow)
scan_rows [] = ok []
scan_rows (r ∷ rs) = do row ← scan_ledger_entry r; rest ← scan_rows rs; ok (row ∷ rest)

-- `WHERE wallet_id = $1`
abbrev pub rows_of_wallet : Uuid → List LedgerRow → List LedgerRow
rows_of_wallet id [] = []
rows_of_wallet id (r ∷ rs) =
    if r.wallet_id == id then r ∷ rows_of_wallet id rs else rows_of_wallet id rs

-- `WHERE seq > $2`
abbrev pub rows_after : ℤ → List LedgerRow → List LedgerRow
rows_after n [] = []
rows_after n (r ∷ rs) = if ltb_ℤ n (pos r.seq) then r ∷ rows_after n rs else rows_after n rs

abbrev scanned_wallet : Option Wallet → Result Wallet
scanned_wallet none = err wallet_not_found
scanned_wallet (some w) = scan_wallet (wallet_row_of w)

abbrev scanned_transaction : Option WagerTransaction → Result WagerTransaction
scanned_transaction none = err transaction_not_found
scanned_transaction (some t) = scan_transaction (row_of t)

unfoldable pub find_wallet : Uuid → Database → Result Wallet
find_wallet id db = scanned_wallet (find_row (has_wallet_id id) db.wallets)

unfoldable pub find_transaction : Uuid → Database → Result WagerTransaction
find_transaction id db = scanned_transaction (find_row (has_transaction_id id) db.transactions)

unfoldable pub find_transaction_by_provider : Text → Text → Database → Result WagerTransaction
find_transaction_by_provider provider external db =
    scanned_transaction (find_row (has_external_id provider external) db.transactions)

module _ (seqs : ℕ → ℕ) where
  -- The rows of the table in the order of `seq`.
  abbrev pub ledger_rows : Database → List LedgerRow
  ledger_rows db = rows_from seqs 0 db.ledger

  unfoldable pub page_ledger : Uuid → ℤ → ℕ → Database → Result (List LedgerEntryRow)
  page_ledger id after limit db =
      scan_rows (take limit (rows_after after (rows_of_wallet id (ledger_rows db))))

  -- The balance and the whole history in one view of the database.
  unfoldable pub ledger_snapshot : Uuid → Database → Result (Money × List WalletLedgerEntry)
  unfolding find_wallet
  ledger_snapshot id db = do
    w ← find_wallet id db
    rows ← scan_rows (rows_of_wallet id (ledger_rows db))
    ok (w.balance, map (λ r. r.entry) rows)
