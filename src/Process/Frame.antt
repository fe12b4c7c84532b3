-- ===== src/Process/Frame.antt =====
-- What every statement of the flow keeps, the flow keeps (process-wager-transaction.go).
use distributed_wallet_api.Prelude.{
  pos, ◌-ℤ◌, Bool, true, false, not, Option, none, some, List, [], ◌∷◌, Error, wallet_not_found,
  transaction_not_found, insufficient_funds, Result, ok, err, Text, Time, is_nil, ◌==◌, text_eq,
}
use distributed_wallet_api.Money.{Money, wrap64}
use distributed_wallet_api.Wallet.{Wallet, Direction, BalanceChange}
use distributed_wallet_api.Transaction.{
  new_external_transaction, wallet_not_found_code, currency_mismatch_code, mark_as_processed,
  reject, mark_as_pending_reference, resolve_reference, already_reversed, reference_not_processed,
  reference_mismatch, WagerTransaction, FailureCode, is_terminal, is_processed,
  is_pending_reference, requires_reference,
}
use distributed_wallet_api.Ledger.{new_ledger_entry}
use distributed_wallet_api.Events.{
  new_wager_transaction_rejected, new_wager_transaction_pending_reference, Metadata,
}
use distributed_wallet_api.Store.{
  now_of, Database, Ports, M, pure, lift, sql, new_id, ◌>>=◌, ◌>>◌, lock_by_id,
  find_by_provider_and_external_id, has_processed_reversal, update_balance, insert_transaction,
  update_transaction, insert_ledger, save_event,
}
use distributed_wallet_api.Process.Command.{
  movement_of, insufficient_funds_code_of, WagerCommand, WagerResult, agrees, apply_movement,
}
use distributed_wallet_api.Process.Flow.{
  as_command, params_of, decide, processed_events, concluded, rejected, waiting, Builder,
  Resolution, decided, carry_on, save_events, no_transaction, optional, recorded, record_operation,
  conclude, reject_operation, park_operation, reversal, resolve_against, resolve_reference_of,
  settled, settle_moving, settle, resume, after_lock, no_wallet, locked, with_wallet, metadata_of,
  operate, apply_operation,
}
use distributed_wallet_api.Store.Steady.{
  Stable, Steady, Steady-bind, Steady-lift, Steady-sql, Steady-if, Steady-read, Steady-optional,
  lock_by_id-same, find_by_provider-same, has_processed_reversal-same,
}

module _ (ports : Ports) (I : Database → Type 0) (stable : Stable I) where
  save_events-Steady : (builders : List Builder) → Steady I (save_events ports builders)
  unfolding save_events
  save_events-Steady [] w i = i
  save_events-Steady (build ∷ builders) w i =
      Steady-bind ports I (new_id ports) _ (λ w' i'. i')
        (λ id. Steady-bind ports I (lift (build id)) _ (Steady-lift ports I (build id)) (λ envelope.
          Steady-bind ports I (sql ports (save_event envelope)) _
            (Steady-sql ports I (save_event envelope) (stable.events envelope))
            (λ r. save_events-Steady builders)))
        w i

  -- A transition, its row, its events and the result.
  transition-Steady :
      (next : Result WagerTransaction) (events : WagerTransaction → List Builder)
      (result : WagerTransaction → WagerResult)
      → Steady I (
          lift next >>= λ t'.
          sql ports (update_transaction t') >> (save_events ports (events t') >> pure (result t')))
  transition-Steady next events result =
      Steady-bind ports I (lift next) _ (Steady-lift ports I next) (λ t'.
        Steady-bind ports I (sql ports (update_transaction t')) _
          (Steady-sql ports I (update_transaction t') (stable.updates t'))
          (λ r.
            Steady-bind ports I (save_events ports (events t')) _ (save_events-Steady (events t'))
              (λ u w i. i)))

  conclude-Steady :
      (t : WagerTransaction) (balance : Money) (change : Option BalanceChange) (now : Time)
      (meta : Metadata)
      → Steady I (conclude ports t balance change now meta)
  unfolding conclude
  conclude-Steady t balance change now meta =
      transition-Steady (mark_as_processed t balance now)
        (λ t'. processed_events ports t' change meta) (λ t'. concluded ports t' balance)

  reject_operation-Steady :
      (t : WagerTransaction) (code : FailureCode) (now : Time) (meta : Metadata)
      → Steady I (reject_operation ports t code now meta)
  unfolding reject_operation
  reject_operation-Steady t code now meta =
      transition-Steady (reject t code now)
        (λ t'. (λ id. new_wager_transaction_rejected id t' meta) ∷ [])
        (λ t'. rejected ports t' code)

  park_operation-Steady :
      (t : WagerTransaction) (now : Time) (meta : Metadata)
      → Steady I (park_operation ports t now meta)
  unfolding park_operation
  park_operation-Steady t now meta =
      Steady-if ports I (is_pending_reference t.state) _ _ (λ w i. i)
        (transition-Steady (mark_as_pending_reference t now)
          (λ t'. (λ id. new_wager_transaction_pending_reference id t' meta) ∷ [])
          (λ t'. waiting ports t'))

  decide-Steady : (m : M WagerResult) → Steady I m → Steady I (decide ports m)
  decide-Steady m h = Steady-bind ports I m _ h (λ r w i. i)

  reversal-Steady :
      (t reference : WagerTransaction) (now : Time) (meta : Metadata) (b : Bool)
      → Steady I (reversal ports t reference now meta b)
  reversal-Steady t reference now meta true =
      decide-Steady (reject_operation ports t already_reversed now meta)
        (reject_operation-Steady t already_reversed now meta)
  reversal-Steady t reference now meta false =
      Steady-bind ports I (lift (resolve_reference t reference.id now)) _
        (Steady-lift ports I (resolve_reference t reference.id now)) (λ t' w i. i)

  resolve_against-Steady :
      (t : WagerTransaction) (o : Option WagerTransaction) (now : Time) (meta : Metadata)
      → Steady I (resolve_against ports t o now meta)
  resolve_against-Steady t none now meta =
      decide-Steady (park_operation ports t now meta) (park_operation-Steady t now meta)
  resolve_against-Steady t (some reference) now meta =
      Steady-if ports I (not (is_terminal reference.state)) _ _
        (decide-Steady (park_operation ports t now meta) (park_operation-Steady t now meta))
        (Steady-if ports I (not (is_processed reference.state)) _ _
          (decide-Steady (reject_operation ports t reference_not_processed now meta)
            (reject_operation-Steady t reference_not_processed now meta))
          (Steady-if ports I (not (agrees t reference)) _ _
            (decide-Steady (reject_operation ports t reference_mismatch now meta)
              (reject_operation-Steady t reference_mismatch now meta))
            (Steady-bind ports I (sql ports (has_processed_reversal reference.id)) _
              (Steady-read ports I (has_processed_reversal reference.id)
                (has_processed_reversal-same reference.id))
              (reversal-Steady t reference now meta))))

  no_transaction-Steady : (e : Error) → Steady I (no_transaction ports e)
  no_transaction-Steady transaction_not_found w i = i
  no_transaction-Steady _ w i = tt

  lookup-Steady :
      (provider external : Text)
      → Steady I (optional ports (sql ports (find_by_provider_and_external_id provider external)))
  lookup-Steady provider external =
      Steady-optional ports I (find_by_provider_and_external_id provider external) some
        (no_transaction ports) (find_by_provider-same provider external) no_transaction-Steady

  resolve_reference_of-Steady :
      (t : WagerTransaction) (now : Time) (meta : Metadata)
      → Steady I (resolve_reference_of ports t now meta)
  unfolding resolve_reference_of
  resolve_reference_of-Steady t now meta =
      Steady-if ports I (not (requires_reference t.kind)) _ _ (λ w i. i)
        (Steady-bind ports I
          (optional ports
            (sql ports (find_by_provider_and_external_id t.provider_id t.reference_external_id)))
          _ (lookup-Steady t.provider_id t.reference_external_id)
          (λ o. resolve_against-Steady t o now meta))

  settled-Steady :
      (t : WagerTransaction) (now : Time) (meta : Metadata) (p : Wallet × Result BalanceChange)
      → Steady I (settled ports t now meta p)
  settled-Steady t now meta (w, ok change) =
      Steady-bind ports I (sql ports (update_balance w (wrap64 (change.wallet_version -ℤ pos 1)))) _
        (Steady-sql ports I _ (stable.balances w (wrap64 (change.wallet_version -ℤ pos 1))))
        (λ r.
          Steady-bind ports I (new_id ports) _ (λ w' i'. i')
            (λ id.
              Steady-bind ports I (lift (new_ledger_entry id t.id change)) _
                (Steady-lift ports I (new_ledger_entry id t.id change))
                (λ entry.
                  Steady-bind ports I (sql ports (insert_ledger entry)) _
                    (Steady-sql ports I (insert_ledger entry) (stable.entries entry))
                    (λ r'. conclude-Steady t w.balance (some change) now meta))))
  settled-Steady t now meta (w, err insufficient_funds) =
      reject_operation-Steady t (insufficient_funds_code_of t.kind) now meta
  settled-Steady t now meta (w, err _) = λ w' i. tt

  settle_moving-Steady :
      (w : Wallet) (t : WagerTransaction) (now : Time) (meta : Metadata) (o : Option Direction)
      → Steady I (settle_moving ports w t now meta o)
  settle_moving-Steady w t now meta none = conclude-Steady t w.balance none now meta
  settle_moving-Steady w t now meta (some d) =
      settled-Steady t now meta (apply_movement w d t.money now)

  settle-Steady :
      (w : Wallet) (t : WagerTransaction) (o : Option WagerTransaction) (now : Time)
      (meta : Metadata)
      → Steady I (settle ports w t o now meta)
  unfolding settle
  settle-Steady w t o now meta =
      Steady-bind ports I (lift (movement_of t o)) _ (Steady-lift ports I (movement_of t o))
        (settle_moving-Steady w t now meta)

  resume-Steady :
      (w : Wallet) (now : Time) (meta : Metadata) (r : Resolution)
      → Steady I (resume ports w now meta r)
  resume-Steady w now meta (decided r) = λ w' i. i
  resume-Steady w now meta (carry_on t o) = settle-Steady w t o now meta

  after_lock-Steady :
      (cmd : WagerCommand) (t : WagerTransaction) (now : Time) (meta : Metadata) (w : Wallet)
      → Steady I (after_lock ports cmd t now meta w)
  unfolding after_lock
  after_lock-Steady cmd t now meta w =
      Steady-if ports I (not (w.player_id == cmd.player_id)) _ _
        (reject_operation-Steady t wallet_not_found_code now meta)
        (Steady-if ports I (not (text_eq w.balance.currency cmd.money.currency)) _ _
          (reject_operation-Steady t currency_mismatch_code now meta)
          (Steady-bind ports I (resolve_reference_of ports t now meta) _
            (resolve_reference_of-Steady t now meta) (resume-Steady w now meta)))

  no_wallet-Steady : (e : Error) → Steady I (no_wallet ports e)
  no_wallet-Steady wallet_not_found w i = i
  no_wallet-Steady _ w i = tt

  with_wallet-Steady :
      (cmd : WagerCommand) (t : WagerTransaction) (now : Time) (meta : Metadata) (o : Option Wallet)
      → Steady I (with_wallet ports cmd t now meta o)
  with_wallet-Steady cmd t now meta none = reject_operation-Steady t wallet_not_found_code now meta
  with_wallet-Steady cmd t now meta (some w) = after_lock-Steady cmd t now meta w

  operate-Steady :
      (cmd : WagerCommand) (now : Time) (meta : Metadata) (found : WagerTransaction × Bool)
      → Steady I (operate ports cmd now meta found)
  operate-Steady cmd now meta (t, true) = λ w i. i
  operate-Steady cmd now meta (t, false) =
      Steady-bind ports I (locked ports (sql ports (lock_by_id cmd.wallet_id))) _
        (Steady-optional ports I (lock_by_id cmd.wallet_id) some (no_wallet ports)
          (lock_by_id-same cmd.wallet_id) no_wallet-Steady)
        (with_wallet-Steady cmd t now meta)

  recorded-Steady :
      (cmd : WagerCommand) (now : Time) (o : Option WagerTransaction)
      → Steady I (recorded ports cmd now o)
  recorded-Steady cmd now (some existing) =
      Steady-if ports I (not (text_eq existing.payload_hash cmd.payload_hash)) _ _ (λ w i. tt)
        (λ w i. i)
  recorded-Steady cmd now none =
      Steady-bind ports I (new_id ports) _ (λ w i. i)
        (λ id.
          let built = as_command (new_external_transaction (params_of cmd id now)) in
          Steady-bind ports I (lift built) _ (Steady-lift ports I built) (λ t.
            Steady-bind ports I (sql ports (insert_transaction t)) (λ _. pure (t, false))
              (Steady-sql ports I (insert_transaction t) (stable.inserts t)) (λ r w i. i)))

  record_operation-Steady :
      (cmd : WagerCommand) (now : Time) → Steady I (record_operation ports cmd now)
  unfolding record_operation
  record_operation-Steady cmd now =
      Steady-bind ports I _ _ (lookup-Steady cmd.provider_id cmd.external_transaction_id)
        (recorded-Steady cmd now)

  metadata_of-Steady : (meta : Metadata) → Steady I (metadata_of ports meta)
  metadata_of-Steady meta = Steady-if ports I (is_nil meta.correlation_id) _ _ (λ w i. i) (λ w i. i)

  -- The whole of `apply`.
  pub apply_operation-Steady : (cmd : WagerCommand) → Steady I (apply_operation ports cmd)
  unfolding apply_operation
  apply_operation-Steady cmd =
      Steady-bind ports I (now_of ports) _ (λ w i. i)
        (λ now.
          Steady-bind ports I (metadata_of ports cmd.metadata) _ (metadata_of-Steady cmd.metadata)
            (λ meta.
              Steady-bind ports I (record_operation ports cmd now) _
                (record_operation-Steady cmd now) (operate-Steady cmd now meta)))
