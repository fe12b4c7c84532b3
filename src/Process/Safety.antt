-- ===== src/Process/Safety.antt =====
-- The invariant and the entry points `Execute` and `ExecuteFromMessage`.
use distributed_wallet_api.Prelude.{
  ◌≡◌, true, Bool-cases, inl, inr, some, ok, ℕ, zero, suc, Uuid, Text,
}
use distributed_wallet_api.Money.{IsInt64, is_valid_iso4217}
use distributed_wallet_api.Wallet.{Wallet}
use distributed_wallet_api.Store.{Database, Ports, World, M, within, find_row, has_wallet_id}
use distributed_wallet_api.Ledger.{replay_ledger_balance}
use distributed_wallet_api.Store.Reconciliation.{history_of, Valid-reconciles}
use distributed_wallet_api.Store.Invariant.{Valid}
use distributed_wallet_api.Store.Triples.{lifted_keeps, Ensures, within-keeps}
use distributed_wallet_api.Process.Command.{WagerCommand, validate_command}
use distributed_wallet_api.Process.Flow.{apply_operation}
use distributed_wallet_api.Process.Execute.{
  is_conflict, run_attempts, run_with_retry, execute, message_body, execute_from_message,
}
use distributed_wallet_api.Process.Applied.{Sound, apply_operation-Valid, message_body-Valid}

pub run_attempts-keeps :
    {A : Type 0} (ports : Ports) (I : Database → Type 0) (m : M A)
    → ((n : ℕ) (db : Database) → I db → I (ports.others n db))
    → ((w : World) → I w.db → Ensures (λ _ db. I db) (m w))
    → (n : ℕ) (w : World) → I w.db
    → I (run_attempts ports m n w).1.db
unfolding run_attempts
run_attempts-keeps ports I m others body zero w h = within-keeps ports I m others body w h
run_attempts-keeps ports I m others body (suc n) w h =
    let first = within-keeps ports I m others body w h in
    elim (Bool-cases (is_conflict (within ports m w).0)) [
      | inl t ↦ rw t (run_attempts-keeps ports I m others body n (within ports m w).1 first)
      | inr f ↦ rw f first
    ]

module _ (ports : Ports) (sound : Sound ports) (cmd : WagerCommand)
    (iso : is_valid_iso4217 cmd.money.currency ≡ true) (in_range : IsInt64 cmd.money.cents)
    (w : World) (valid : Valid w.db) where
  -- Whatever `Execute` returns, a result or any error, it leaves a valid database: every wallet
  -- well formed and never negative, with a balance at which its ledger history ends, every
  -- transaction one that the storage reads back, identifiers distinct, and at most one processed
  -- reversal of any transaction. The conditions: the command has a currency and an int64 amount
  -- that `NewMoney` accepts, the identifiers are not nil, the clock is set, and the other instances
  -- keep the database valid.
  pub execute-Valid : Valid (execute ports cmd w).1.db
  unfolding execute run_with_retry
  execute-Valid = lifted_keeps Valid (validate_command cmd) _ w valid (
      run_attempts-keeps ports Valid (apply_operation ports cmd) sound.others
        (apply_operation-Valid ports sound cmd iso in_range) 2 w valid)

  -- `ExecuteFromMessage` leaves a valid database too, whatever it returns, a message already
  -- completed and every failure of a statement included, under the conditions of `execute-Valid`.
  pub execute_from_message-Valid :
      (consumer message_id hash : Text)
      → Valid (execute_from_message ports consumer cmd message_id hash w).1.db
  unfolding execute_from_message run_with_retry
  execute_from_message-Valid consumer message_id hash =
      lifted_keeps Valid (validate_command cmd) _ w valid (
        run_attempts-keeps ports Valid (message_body ports consumer cmd message_id hash)
          sound.others (message_body-Valid ports sound cmd iso in_range consumer message_id hash) 2
          w valid)

  -- After `Execute`, on a valid database and under the conditions of `execute-Valid`,
  -- `ReplayLedgerBalance` over the stored history of a wallet succeeds and is the stored balance of
  -- that wallet.
  pub execute-reconciles :
      (id : Uuid) {x : Wallet}
      → find_row (has_wallet_id id) (execute ports cmd w).1.db.wallets ≡ some x
      → replay_ledger_balance x.balance.currency (history_of (execute ports cmd w).1.db x.id)
        ≡ ok x.balance
  execute-reconciles id f = Valid-reconciles (execute ports cmd w).1.db id execute-Valid f
