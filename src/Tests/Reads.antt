-- ===== src/Tests/Reads.antt =====
-- The reads, on the scenario.
use distributed_wallet_api.Prelude.{[], ◌∷◌, ◌≡◌, refl, arith, true, ◌+◌, pos, ok, codes}
use distributed_wallet_api.Ledger.Chain.{amount_of}
use distributed_wallet_api.Reconcile.{reconcile}
use distributed_wallet_api.Reconcile.Exact.{report, reconcile_lem, reconcile-Valid}
use distributed_wallet_api.Tests.Scenario.{
  brl, brl-iso, won_db, won_db-Valid, won_wallet, won_entry-Posted, wallet_with,
  wallet_with-IsWallet,
}

-- A balance of 900 beside a history that ends at 500.
reconcile_lem_example :
    reconcile (λ n. n + 1) 7 (record won_db { wallets = wallet_with 900 ∷ [] })
    ≡ ok (report 7 (wallet_with 900) (pos 500) 1)
reconcile_lem_example =
    reconcile_lem (λ n. n + 1) 7 (record won_db { wallets = wallet_with 900 ∷ [] })
      (wallet_with 900) (pos 500) refl (wallet_with-IsWallet 900 (omega arith)) brl-iso
      (won_entry-Posted, refl)

reconcile-Valid_example :
    reconcile (λ n. n + 1) 7 won_db
    ≡ ok (record {
      wallet_id = 7;
      stored_balance = brl 500;
      calculated_balance = brl 500;
      difference = amount_of (pos 0) (codes "BRL");
      consistent = true;
      checked_entries = 1;
    })
reconcile-Valid_example = reconcile-Valid (λ n. n + 1) 7 won_db {w = won_wallet} won_db-Valid refl
