-- ===== src/Process/Flow.antt =====
-- The flow inside one SQL transaction: `apply` and the steps that it is made of. A step that
-- mutates the transaction or the wallet returns it.
use distributed_wallet_api.Prelude.{
  Bool, true, false, not, ◌==◌, if◌then◌else◌, Option, none, some, List, [], ◌∷◌, pos, ◌-ℤ◌, Uuid,
  is_nil, Time, text_eq, Error, Result, ok, err, wallet_not_found, transaction_not_found,
  payload_conflict, invalid_command, insufficient_funds,
}
use distributed_wallet_api.Money.{Money, no_money, wrap64}
use distributed_wallet_api.Wallet.{Wallet, Direction, BalanceChange}
use distributed_wallet_api.Transaction.{
  WagerTransaction, new_external_transaction, ExternalTransactionParams, FailureCode, no_code,
  reference_not_processed, reference_mismatch, already_reversed, wallet_not_found_code,
  currency_mismatch_code, requires_reference, is_terminal, is_processed, is_pending_reference,
  mark_as_processed, reject, mark_as_pending_reference, resolve_reference,
}
use distributed_wallet_api.Ledger.{new_ledger_entry}
use distributed_wallet_api.Events.{
  Metadata, Envelope, new_wager_transaction_processed, new_wager_transaction_rejected,
  new_wager_transaction_pending_reference, new_wallet_balance_changed,
}
use distributed_wallet_api.Store.{
  Ports, M, pure, throw, lift, sql, catch, ◌>>=◌, ◌>>◌, new_id, now_of, lock_by_id, update_balance,
  find_by_provider_and_external_id, insert_transaction, update_transaction, has_processed_reversal,
  insert_ledger, save_event,
}
use distributed_wallet_api.Process.Command.{
  WagerCommand, WagerResult, movement_of, apply_movement, insufficient_funds_code_of, agrees,
  replay_of,
}

-- A builder of an event, given what `uuid.New()` returns.
abbrev pub Builder : Type 0
Builder = Uuid → Result Envelope

-- The outcome of `resolveReference`: the operation is decided, or the flow carries on with the
-- transaction and the reference that it reverses.
pub data Resolution : Type 0 where
  decided : WagerResult → Resolution
  carry_on : WagerTransaction → Option WagerTransaction → Resolution

-- `%w` keeps `ErrInvalidCommand` alone in the chain of the error.
abbrev pub as_command : Result WagerTransaction → Result WagerTransaction
as_command (ok t) = ok t
as_command (err _) = err invalid_command

abbrev pub params_of : WagerCommand → Uuid → Time → ExternalTransactionParams
params_of cmd id now = record {
  id = id;
  wallet_id = cmd.wallet_id;
  player_id = cmd.player_id;
  provider_id = cmd.provider_id;
  external_transaction_id = cmd.external_transaction_id;
  idempotency_key = cmd.idempotency_key;
  payload_hash = cmd.payload_hash;
  round_id = cmd.round_id;
  game_id = cmd.game_id;
  reference_external_id = cmd.reference_external_id;
  kind = cmd.kind;
  money = cmd.money;
  now = now;
}

module _ (ports : Ports) where
  -- `saveEvents` of open-wallet.go
  unfoldable pub save_events : List Builder → M (Unit {0})
  save_events [] = pure tt
  save_events (build ∷ builders) = do
    id ← new_id ports
    envelope ← lift (build id)
    sql ports (save_event envelope)
    save_events builders

  abbrev pub no_transaction : Error → M (Option WagerTransaction)
  no_transaction transaction_not_found = pure none
  no_transaction e = throw e

  -- A lookup for which no row is no error.
  abbrev pub optional : M WagerTransaction → M (Option WagerTransaction)
  optional m = catch (m >>= λ t. pure (some t)) no_transaction

  -- The branch of `record` on the stored operation. The second result tells a replay.
  abbrev pub recorded : WagerCommand → Time → Option WagerTransaction → M (WagerTransaction × Bool)
  recorded cmd now (some existing) =
      if not (text_eq existing.payload_hash cmd.payload_hash)
      then throw payload_conflict
      else pure (existing, is_terminal existing.state)
  recorded cmd now none = do
    id ← new_id ports
    t ← lift (as_command (new_external_transaction (params_of cmd id now)))
    sql ports (insert_transaction t)
    pure (t, false)

  -- `record`
  unfoldable pub record_operation : WagerCommand → Time → M (WagerTransaction × Bool)
  record_operation cmd now = do
    existing ←
        optional
          (sql ports (find_by_provider_and_external_id cmd.provider_id cmd.external_transaction_id))
    recorded cmd now existing

  abbrev pub processed_events : WagerTransaction → Option BalanceChange → Metadata → List Builder
  processed_events t none meta = (λ id. new_wager_transaction_processed id t meta) ∷ []
  processed_events t (some change) meta =
      (λ id. new_wager_transaction_processed id t meta)
      ∷ (λ id. new_wallet_balance_changed id change t.id meta)
      ∷ []

  abbrev pub concluded : WagerTransaction → Money → WagerResult
  concluded t balance = record {
    transaction_id = t.id;
    state = t.state;
    balance = balance;
    failure_code = no_code;
    replayed = false;
  }

  -- `conclude`
  unfoldable pub conclude :
      WagerTransaction → Money → Option BalanceChange → Time → Metadata → M WagerResult
  unfolding save_events
  conclude t balance change now meta = do
    t' ← lift (mark_as_processed t balance now)
    sql ports (update_transaction t')
    save_events (processed_events t' change meta)
    pure (concluded t' balance)

  abbrev pub rejected : WagerTransaction → FailureCode → WagerResult
  rejected t code = record {
    transaction_id = t.id;
    state = t.state;
    balance = no_money;
    failure_code = code;
    replayed = false;
  }

  -- `reject`
  unfoldable pub reject_operation : WagerTransaction → FailureCode → Time → Metadata → M WagerResult
  unfolding save_events
  reject_operation t code now meta = do
    t' ← lift (reject t code now)
    sql ports (update_transaction t')
    save_events ((λ id. new_wager_transaction_rejected id t' meta) ∷ [])
    pure (rejected t' code)

  abbrev pub waiting : WagerTransaction → WagerResult
  waiting t = record {
    transaction_id = t.id;
    state = t.state;
    balance = no_money;
    failure_code = no_code;
    replayed = false;
  }

  -- `park`
  unfoldable pub park_operation : WagerTransaction → Time → Metadata → M WagerResult
  unfolding save_events
  park_operation t now meta = if is_pending_reference t.state then pure (waiting t) else do
    t' ← lift (mark_as_pending_reference t now)
    sql ports (update_transaction t')
    save_events ((λ id. new_wager_transaction_pending_reference id t' meta) ∷ [])
    pure (waiting t')

  abbrev pub decide : M WagerResult → M Resolution
  decide m = m >>= λ r. pure (decided r)

  abbrev pub reversal : WagerTransaction → WagerTransaction → Time → Metadata → Bool → M Resolution
  reversal t reference now meta true = decide (reject_operation t already_reversed now meta)
  reversal t reference now meta false =
      lift (resolve_reference t reference.id now) >>= λ t'. pure (carry_on t' (some reference))

  abbrev pub resolve_against :
      WagerTransaction → Option WagerTransaction → Time → Metadata → M Resolution
  resolve_against t none now meta = decide (park_operation t now meta)
  resolve_against t (some reference) now meta =
      if not (is_terminal reference.state)
      then decide (park_operation t now meta)
      else if not (is_processed reference.state)
      then decide (reject_operation t reference_not_processed now meta)
      else if not (agrees t reference)
      then decide (reject_operation t reference_mismatch now meta)
      else (sql ports (has_processed_reversal reference.id) >>= reversal t reference now meta)

  -- `resolveReference`
  unfoldable pub resolve_reference_of : WagerTransaction → Time → Metadata → M Resolution
  resolve_reference_of t now meta =
      if not (requires_reference t.kind) then pure (carry_on t none) else do
        reference ←
            optional
              (sql ports (find_by_provider_and_external_id t.provider_id t.reference_external_id))
        resolve_against t reference now meta

  -- The end of `settle`, on the wallet after the call and the result of `applyMovement`.
  abbrev pub settled :
      WagerTransaction → Time → Metadata → Wallet × Result BalanceChange → M WagerResult
  settled t now meta (w, ok change) = do
    sql ports (update_balance w (wrap64 (change.wallet_version -ℤ pos 1)))
    id ← new_id ports
    entry ← lift (new_ledger_entry id t.id change)
    sql ports (insert_ledger entry)
    conclude t w.balance (some change) now meta
  settled t now meta (w, err e) = elim e [
    | insufficient_funds ↦ reject_operation t (insufficient_funds_code_of t.kind) now meta
    | other ↦ throw other
  ]

  abbrev pub settle_moving :
      Wallet → WagerTransaction → Time → Metadata → Option Direction → M WagerResult
  settle_moving w t now meta none = conclude t w.balance none now meta
  settle_moving w t now meta (some d) = settled t now meta (apply_movement w d t.money now)

  unfoldable pub settle :
      Wallet → WagerTransaction → Option WagerTransaction → Time → Metadata → M WagerResult
  settle w t reference now meta = lift (movement_of t reference) >>= settle_moving w t now meta

  abbrev pub resume : Wallet → Time → Metadata → Resolution → M WagerResult
  resume w now meta (decided r) = pure r
  resume w now meta (carry_on t reference) = settle w t reference now meta

  -- `apply`, from the lock of the wallet on.
  unfoldable pub after_lock :
      WagerCommand → WagerTransaction → Time → Metadata → Wallet → M WagerResult
  after_lock cmd t now meta w =
      if not (w.player_id == cmd.player_id)
      then reject_operation t wallet_not_found_code now meta
      else if not (text_eq w.balance.currency cmd.money.currency)
      then reject_operation t currency_mismatch_code now meta
      else (resolve_reference_of t now meta >>= resume w now meta)

  abbrev pub no_wallet : Error → M (Option Wallet)
  no_wallet wallet_not_found = pure none
  no_wallet e = throw e

  abbrev pub locked : M Wallet → M (Option Wallet)
  locked m = catch (m >>= λ w. pure (some w)) no_wallet

  abbrev pub with_wallet :
      WagerCommand → WagerTransaction → Time → Metadata → Option Wallet → M WagerResult
  with_wallet cmd t now meta none = reject_operation t wallet_not_found_code now meta
  with_wallet cmd t now meta (some w) = after_lock cmd t now meta w

  -- `metadata`
  abbrev pub metadata_of : Metadata → M Metadata
  metadata_of meta =
      if is_nil meta.correlation_id
      then (new_id ports >>= λ id. pure (record meta { correlation_id = id }))
      else pure meta

  abbrev pub operate : WagerCommand → Time → Metadata → WagerTransaction × Bool → M WagerResult
  operate cmd now meta (t, true) = pure (replay_of t)
  operate cmd now meta (t, false) =
      locked (sql ports (lock_by_id cmd.wallet_id)) >>= with_wallet cmd t now meta

  -- `apply`
  unfoldable pub apply_operation : WagerCommand → M WagerResult
  apply_operation cmd = do
    now ← now_of ports
    meta ← metadata_of cmd.metadata
    found ← record_operation cmd now
    operate cmd now meta found
