-- ===== src/OpenWallet.antt =====
-- Opening a wallet (cmd/internal/usecase/open-wallet.go).
pub mod Safety
pub mod Recorded
pub mod Flow
pub mod Booked
pub mod Opened
use distributed_wallet_api.Prelude.{
  Error, Bool, true, false, not, if◌then◌else◌, [], ◌∷◌, Uuid, is_nil, Time, is_empty,
  wallet_not_found, wallet_already_exists, uninitialized_money, negative_initial_balance, fail_if,
}
use distributed_wallet_api.Money.{Money, zero_money, is_negative, is_positive}
use distributed_wallet_api.Wallet.{Wallet, new_wallet, BalanceChange, credit_direction}
use distributed_wallet_api.Transaction.{new_opening_transaction}
use distributed_wallet_api.Ledger.{new_ledger_entry}
use distributed_wallet_api.Events.{
  Metadata, new_metadata, new_wager_transaction_processed, new_wallet_balance_changed,
}
use distributed_wallet_api.Store.{
  Ports, M, pure, throw, lift, sql, catch, ◌>>=◌, ◌>>◌, new_id, now_of, within,
  find_by_player_and_currency, insert_wallet, insert_transaction, insert_ledger,
}
use distributed_wallet_api.Process.{save_events}

pub record OpenWalletCommand : Type 0 where
  pub player_id : Uuid
  pub initial_balance : Money
  pub correlation_id : Uuid

-- The change that `recordOpening` assembles.
abbrev pub opening_change : Wallet → Money → BalanceChange
opening_change w zero = record {
  wallet_id = w.id;
  direction = credit_direction;
  amount = w.balance;
  balance_before = zero;
  balance_after = w.balance;
  wallet_version = w.version;
  occurred_at = w.created_at;
}

module _ (ports : Ports) where
  unfoldable pub record_opening : Wallet → Metadata → M (Unit {0})
  record_opening w meta = do
    opening_id ← new_id ports
    opening ← lift (new_opening_transaction opening_id w.id w.player_id w.balance w.created_at)
    sql ports (insert_transaction opening)
    zero ← lift (zero_money w.balance.currency)
    entry_id ← new_id ports
    entry ← lift (new_ledger_entry entry_id opening.id (opening_change w zero))
    sql ports (insert_ledger entry)
    save_events ports (
        (λ id. new_wager_transaction_processed id opening meta)
        ∷ (λ id. new_wallet_balance_changed id (opening_change w zero) opening.id meta)
        ∷ [])

  abbrev pub no_existing : Error → M Bool
  no_existing wallet_not_found = pure false
  no_existing e = throw e

  -- Whether the lookup found a wallet; any error but that of no row ends the use case.
  abbrev pub existing_wallet : M Wallet → M Bool
  existing_wallet m = catch (m >>= λ _. pure true) no_existing

  abbrev pub opened : OpenWalletCommand → Metadata → Wallet → M Wallet
  opened cmd meta w =
      if not (is_positive cmd.initial_balance) then pure w else (record_opening w meta >> pure w)

  -- The function that `Execute` runs in the SQL transaction.
  unfoldable pub open_body : OpenWalletCommand → Time → Metadata → M Wallet
  open_body cmd now meta = do
    exists ←
        existing_wallet
          (sql ports (find_by_player_and_currency cmd.player_id cmd.initial_balance.currency))
    lift (fail_if exists wallet_already_exists)
    id ← new_id ports
    w ← lift (new_wallet id cmd.player_id cmd.initial_balance now)
    sql ports (insert_wallet w)
    opened cmd meta w

  -- `correlation`
  abbrev pub correlation : Uuid → M Uuid
  correlation correlation_id = if is_nil correlation_id then new_id ports else pure correlation_id

  -- `OpenWallet.Execute`
  unfoldable pub open_wallet : OpenWalletCommand → M Wallet
  open_wallet cmd = do
    now ← now_of ports
    lift (fail_if (is_empty cmd.initial_balance.currency) uninitialized_money)
    lift (fail_if (is_negative cmd.initial_balance) negative_initial_balance)
    correlation_id ← correlation cmd.correlation_id
    within ports (open_body cmd now (new_metadata correlation_id))
