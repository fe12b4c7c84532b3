-- ===== src/Tests/UseCases.antt =====
-- The use cases on the scenario.
use distributed_wallet_api.Prelude.{
  int_laws, ◌+ℤ◌, ◌-ℤ◌, text_eq, text_differs, ap, none, arith, ◌≡◌, ◌≢◌, ◌↔◌, refl, true, some, ok,
  err, codes, payload_conflict, pos,
}
use distributed_wallet_api.Money.{IsInt64, subtract, require_same_currency, compare_money, wrap64}
use distributed_wallet_api.Ledger.{replay_ledger_balance}
use distributed_wallet_api.Wallet.{Wallet, credit_direction, debit_direction, debit, apply}
use distributed_wallet_api.Wallet.Movements.{moved, described}
use distributed_wallet_api.Transaction.{
  WagerTransaction, bet, rollback, processed, no_code, kind_direction,
}
use distributed_wallet_api.Store.{find_row, has_external_id, has_wallet_id}
use distributed_wallet_api.Store.Invariant.{Valid}
use distributed_wallet_api.Store.Reconciliation.{history_of, Valid-reconciles}
use distributed_wallet_api.Process.{
  WagerResult, apply_operation, execute, execute_from_message, validate_command, agrees,
  movement_of, apply_movement,
}
use distributed_wallet_api.Process.Safety.{
  execute-Valid, execute_from_message-Valid, execute-reconciles,
}
use distributed_wallet_api.Process.Atomicity.{Atomic, execute-err}
use distributed_wallet_api.Process.Idempotency.{Yields, execute_replays, execute_conflicts}
use distributed_wallet_api.Process.Missing.{execute-missing_wallet}
use distributed_wallet_api.Process.Decisions.{Matches, agrees_iff, rollback_restores}
use distributed_wallet_api.Resume.{expire}
use distributed_wallet_api.Resume.Safety.{expire-Valid}
use distributed_wallet_api.Tests.Scenario.{
  some_hash, win_command, changed_command, lost_command, quiet_ports, quiet_ports-Sound, initial_db,
  initial_db-Valid, world_of, brl, brl-iso, brl-IsMoney, won, won_db, won_wallet, won_db-Valid,
  wallet_with, wallet_with-IsWallet,
}

in_range : IsInt64 (pos 500)
in_range = (brl-IsMoney 500 (omega arith)).in_range

execute-Valid_example : Valid (execute quiet_ports win_command (world_of initial_db)).1.db
execute-Valid_example =
    execute-Valid quiet_ports quiet_ports-Sound win_command brl-iso in_range (world_of initial_db)
      initial_db-Valid

execute_from_message-Valid_example :
    Valid
      (execute_from_message quiet_ports
        (codes "c1")
        win_command
        (codes "m1")
        some_hash
        (world_of initial_db)).1.db
execute_from_message-Valid_example =
    execute_from_message-Valid quiet_ports quiet_ports-Sound win_command brl-iso in_range
      (world_of initial_db) initial_db-Valid (codes "c1") (codes "m1") some_hash

checked : validate_command win_command ≡ ok tt
unfolding validate_command
checked = refl

changed_checked : validate_command changed_command ≡ ok tt
unfolding validate_command
changed_checked = refl

found_won : find_row (has_external_id (codes "p1") (codes "t1")) won_db.transactions ≡ some won
unfolding text_eq
found_won = refl

other_payload : won.payload_hash ≢ changed_command.payload_hash
unfolding text_eq
other_payload = text_differs won.payload_hash changed_command.payload_hash refl

execute-reconciles_example :
    replay_ledger_balance
      (codes "BRL")
      (history_of (execute quiet_ports win_command (world_of won_db)).1.db 7)
    ≡ ok (brl 500)
execute-reconciles_example =
    execute-reconciles quiet_ports quiet_ports-Sound win_command brl-iso in_range (world_of won_db)
      won_db-Valid 7 {x = won_wallet}
      (ap (λ db. find_row (has_wallet_id 7) db.wallets)
        (execute_replays quiet_ports (λ n. refl) win_command (world_of won_db) won checked
          won_db-Valid found_won refl refl).database)

execute-err_example :
    Atomic quiet_ports
      (apply_operation quiet_ports changed_command)
      won_db
      payload_conflict
      (execute quiet_ports changed_command (world_of won_db)).1.db
execute-err_example =
    execute-err quiet_ports (λ n db. refl) changed_command (world_of won_db)
      (execute_conflicts quiet_ports (λ n. refl) changed_command (world_of won_db) won
        changed_checked won_db-Valid found_won other_payload).result

abbrev first_outcome : WagerResult
first_outcome = record {
  transaction_id = 100;
  state = processed;
  balance = brl 500;
  failure_code = no_code;
  replayed = true;
}

execute_replays_example :
    Yields (ok first_outcome) won_db (execute quiet_ports win_command (world_of won_db))
execute_replays_example =
    execute_replays quiet_ports (λ n. refl) win_command (world_of won_db) won checked won_db-Valid
      found_won refl refl

execute_conflicts_example :
    Yields (err payload_conflict) won_db (execute quiet_ports changed_command (world_of won_db))
execute_conflicts_example =
    execute_conflicts quiet_ports (λ n. refl) changed_command (world_of won_db) won changed_checked
      won_db-Valid found_won other_payload

execute-missing_wallet_example :
    (execute quiet_ports lost_command (world_of initial_db)).0 ≢ ok first_outcome
execute-missing_wallet_example =
    execute-missing_wallet quiet_ports (λ n db. refl) lost_command initial_db refl refl
      (world_of initial_db) refl first_outcome

expire-Valid_example : Valid (expire quiet_ports 100 win_command.metadata (world_of won_db)).1.db
expire-Valid_example =
    expire-Valid quiet_ports quiet_ports-Sound 100 win_command.metadata (world_of won_db)
      won_db-Valid

Valid-reconciles_example : replay_ledger_balance (codes "BRL") (history_of won_db 7) ≡ ok (brl 500)
Valid-reconciles_example = Valid-reconciles won_db 7 {w = won_wallet} won_db-Valid refl

abbrev bet_entered : WagerTransaction
bet_entered = record won { kind = bet }

abbrev rollback_entered : WagerTransaction
rollback_entered = record won { id = 300; kind = rollback }

agrees_iff_example :
    (agrees rollback_entered bet_entered ≡ true) ↔ Matches rollback_entered bet_entered
agrees_iff_example =
    agrees_iff rollback_entered bet_entered (brl-IsMoney 500 (omega arith))
      (brl-IsMoney 500 (omega arith))

abbrev bet_wallet : Wallet
bet_wallet = moved (wallet_with 1000) (pos 500) 20

bet_moved :
    apply_movement (wallet_with 1000) debit_direction (brl 500) 20
    ≡ (bet_wallet, ok (described (wallet_with 1000) debit_direction (brl 500) (pos 500) 20))
unfolding apply_movement debit apply subtract require_same_currency text_eq compare_money wrap64
    ◌+ℤ◌ ◌-ℤ◌
bet_moved = refl

bet_direction : movement_of bet_entered none ≡ ok (some debit_direction)
unfolding movement_of kind_direction
bet_direction = refl

rollback_direction : movement_of rollback_entered (some bet_entered) ≡ ok (some credit_direction)
unfolding movement_of kind_direction
rollback_direction = refl

rollback_restores_example :
    (apply_movement bet_wallet credit_direction (brl 500) 30).0.balance ≡ brl 1000
rollback_restores_example =
    rollback_restores rollback_entered bet_entered (wallet_with 1000) 20 30
      (wallet_with-IsWallet 1000 (omega arith)) (omega int_laws) (brl-IsMoney 500 (omega arith))
      (omega arith) (omega arith) refl bet_direction rollback_direction bet_moved
