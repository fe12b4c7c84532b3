-- ===== src/Reconcile.antt =====
-- `ReconcileWallet` (cmd/internal/usecase/queries.go).
pub mod Exact
use distributed_wallet_api.Prelude.{ℕ, Bool, some, map, length, Uuid, Result, ok, ◌>>=◌, ◌>>◌}
use distributed_wallet_api.Money.{Money, subtract, is_zero}
use distributed_wallet_api.Ledger.{replay_ledger_balance}
use distributed_wallet_api.Store.{Database}
use distributed_wallet_api.Queries.{ledger_snapshot}

pub record Reconciliation : Type 0 where
  pub wallet_id : Uuid
  pub stored_balance : Money
  pub calculated_balance : Money
  pub difference : Money
  pub consistent : Bool
  pub checked_entries : ℕ

-- `ReconcileWallet.Execute`
unfoldable pub reconcile : (ℕ → ℕ) → Uuid → Database → Result Reconciliation
reconcile seqs wallet_id db = do
  (stored_balance, entries) ← ledger_snapshot seqs wallet_id db
  calculated ← replay_ledger_balance stored_balance.currency (map some entries)
  difference ← subtract stored_balance calculated
  ok (record {
    wallet_id = wallet_id;
    stored_balance = stored_balance;
    calculated_balance = calculated;
    difference = difference;
    consistent = is_zero difference;
    checked_entries = length entries;
  })
