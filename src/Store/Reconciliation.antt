-- ===== src/Store/Reconciliation.antt =====
-- The ledger of the database beside the stored balances (what a reconciliation compares).
use distributed_wallet_api.Prelude.{◌≡◌, Option, some, List, map, ok, Uuid}
use distributed_wallet_api.Wallet.{Wallet}
use distributed_wallet_api.Ledger.{WalletLedgerEntry, replay_ledger_balance}
use distributed_wallet_api.Ledger.Chain.{replay_ledger_balance-Chain}
use distributed_wallet_api.Store.Tables.{Database, find_row, has_wallet_id}
use distributed_wallet_api.Store.Search.{All-find}
use distributed_wallet_api.Store.Invariant.{Valid, WalletOk, entries_of}

-- The history of a wallet as `ReplayLedgerBalance` takes it.
abbrev pub history_of : Database → Uuid → List (Option WalletLedgerEntry)
history_of db id = map some (entries_of id db.ledger)

-- The replay of a stored wallet's history is its balance.
pub Valid-reconciles :
    (db : Database) (id : Uuid) {w : Wallet}
    → Valid db
    → find_row (has_wallet_id id) db.wallets ≡ some w
    → replay_ledger_balance w.balance.currency (history_of db w.id) ≡ ok w.balance
Valid-reconciles db id {w} v f =
    let h = All-find (WalletOk db.ledger) (has_wallet_id id) db.wallets v.wallets f in
    replay_ledger_balance-Chain w.balance.currency w.balance.cents (entries_of w.id db.ledger) h.iso
      h.history
