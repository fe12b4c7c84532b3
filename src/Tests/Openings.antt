-- ===== src/Tests/Openings.antt =====
-- Opening a wallet, on the scenario.
use distributed_wallet_api.Prelude.{◌≡◌, refl, arith, ok, pos, text_eq, ◌+ℤ◌}
use distributed_wallet_api.Store.Checks.{columns_fit, transaction_checks, ledger_checks}
use distributed_wallet_api.Store.Invariant.{Valid}
use distributed_wallet_api.Store.{
  within, find_by_player_and_currency, insert_wallet, insert_transaction, insert_ledger, save_event,
}
use distributed_wallet_api.Wallet.{Wallet, new_wallet}
use distributed_wallet_api.Process.{save_events}
use distributed_wallet_api.Events.{new_wager_transaction_processed, new_wallet_balance_changed}
use distributed_wallet_api.Ledger.{new_ledger_entry, build_ledger_entry, validate_ledger_arithmetic}
use distributed_wallet_api.Transaction.{
  new_opening_transaction, validate_transaction_identity, validate_amount_for_kind,
}
use distributed_wallet_api.Money.{
  equals, validate, is_valid_iso4217, zero_money, new_money, add, wrap64, require_same_currency,
  compare_money,
}
use distributed_wallet_api.OpenWallet.{OpenWalletCommand, open_wallet, open_body, record_opening}
use distributed_wallet_api.OpenWallet.Flow.{open_wallet-Valid}
use distributed_wallet_api.OpenWallet.Opened.{Opened, open_wallet-Opened}
use distributed_wallet_api.Tests.Scenario.{
  brl, brl-IsMoney, quiet_ports, quiet_ports-Sound, world_of, initial_db, initial_db-Valid,
}

abbrev open_command : OpenWalletCommand
open_command = record { player_id = 9; initial_balance = brl 1000; correlation_id = 5 }

open_wallet-Valid_example : Valid (open_wallet quiet_ports open_command (world_of initial_db)).1.db
open_wallet-Valid_example =
    open_wallet-Valid quiet_ports quiet_ports-Sound open_command (world_of initial_db)
      (brl-IsMoney 1000 (omega arith)).in_range initial_db-Valid

abbrev opened_wallet : Wallet
opened_wallet = record {
  id = 100;
  player_id = 9;
  balance = brl 1000;
  version = pos 1;
  created_at = 10;
  updated_at = 10;
}

succeeds : (open_wallet quiet_ports open_command (world_of initial_db)).0 ≡ ok opened_wallet
unfolding open_wallet within open_body find_by_player_and_currency text_eq new_wallet validate
    insert_wallet is_valid_iso4217 record_opening new_opening_transaction
    validate_transaction_identity validate_amount_for_kind insert_transaction zero_money new_money
    columns_fit transaction_checks ledger_checks new_ledger_entry build_ledger_entry
    validate_ledger_arithmetic add wrap64 require_same_currency compare_money insert_ledger
    save_events save_event ◌+ℤ◌ new_wager_transaction_processed new_wallet_balance_changed equals
succeeds = refl

open_wallet-Opened_example :
    Opened open_command initial_db opened_wallet
      (open_wallet quiet_ports open_command (world_of initial_db)).1.db
open_wallet-Opened_example =
    open_wallet-Opened quiet_ports open_command (world_of initial_db) succeeds
