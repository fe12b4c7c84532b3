-- ===== src/Process/Preserve.antt =====
-- The invariant and the ends of an operation: `conclude`, `reject` and `park`.
use distributed_wallet_api.Prelude.{◌≡◌, arith, Option, List, [], ◌∷◌, Result, ok, ◌+◌, Time}
use distributed_wallet_api.Money.{Money}
use distributed_wallet_api.Wallet.{BalanceChange}
use distributed_wallet_api.Transaction.{
  WagerTransaction, FailureCode, mark_as_processed, reject, mark_as_pending_reference,
  is_pending_reference,
}
use distributed_wallet_api.Transaction.Invariant.{
  Frozen, Step, process, refuse, park, Step-IsTransaction, Step-Frozen,
}
use distributed_wallet_api.Events.{
  Metadata, new_wager_transaction_rejected, new_wager_transaction_pending_reference,
}
use distributed_wallet_api.Store.{
  Database, Ports, World, pure, lift, sql, ◌>>=◌, ◌>>◌, with_outcome, update_transaction,
  save_event,
}
use distributed_wallet_api.Store.Invariant.{Valid, Holds, TransactionOk}
use distributed_wallet_api.Store.Writes.{update_transaction-Valid}
use distributed_wallet_api.Store.Delivery.{save_event-Valid}
use distributed_wallet_api.Store.Triples.{
  Ensures, Ensures-bind, Ensures-sql, Ensures-lift, Ensures-if,
}
use distributed_wallet_api.Process.Command.{WagerResult}
use distributed_wallet_api.Process.Flow.{
  concluded, rejected, waiting, park_operation, Builder, save_events, processed_events, conclude,
  reject_operation,
}

pub Step-TransactionOk : {t t' : WagerTransaction} → Step t t' → TransactionOk t → TransactionOk t'
Step-TransactionOk s h =
    let frozen = Step-Frozen s in
    record {
      entity = Step-IsTransaction s h.entity;
      iso = rw frozen.money h.iso;
      in_range = rw frozen.money h.in_range;
    }

fixed_columns :
    (x t t' : WagerTransaction) → Frozen t t' → with_outcome t x ≡ t → with_outcome t' x ≡ t'
fixed_columns x t t' f h = ground arith

-- A transition in memory does not touch the columns that the row fixes.
pub Step-Holds : {t t' : WagerTransaction} (db : Database) → Step t t' → Holds db t → Holds db t'
Step-Holds {t} {t'} db s h =
    let frozen = Step-Frozen s in
    record {
      stored = h.stored;
      found = rw frozen.id h.found;
      same = fixed_columns h.stored t t' frozen h.same;
    }

abbrev pub KeepsValid : {A : Type 0} → A → Database → Type 0
KeepsValid _ db = Valid db

-- A transaction in hand and its row.
pub record Working (t : WagerTransaction) (db : Database) : Type 0 where
  pub valid : Valid db
  pub good : TransactionOk t
  pub held : Holds db t

pub Step-Working :
    {t t' : WagerTransaction} (db : Database) → Step t t' → Working t db → Working t' db
Step-Working db s h = record {
  valid = h.valid;
  good = Step-TransactionOk s h.good;
  held = Step-Holds db s h.held;
}

module _ (ports : Ports) where
  pub save_events-Valid :
      (builders : List Builder) (w : World)
      → Valid w.db
      → Ensures KeepsValid (save_events ports builders w)
  unfolding save_events
  save_events-Valid [] w v = v
  save_events-Valid (build ∷ builders) w v =
      let drawn = record w { drawn = w.drawn + 1 } in
      Ensures-bind KeepsValid KeepsValid (lift (build (ports.ids w.drawn)) drawn) _
        (Ensures-lift ports KeepsValid (build (ports.ids w.drawn)) drawn (λ e h. v))
        (λ e w' v'.
          Ensures-bind KeepsValid KeepsValid (sql ports (save_event e) w') _
            (Ensures-sql ports KeepsValid (save_event e) w'
              (λ r db h. save_event-Valid e w'.db v' h))
            (λ r w'' v''. save_events-Valid builders w'' v''))

  -- What follows a transition: the row is updated, the events are saved, and a result is returned.
  finish_valid :
      (t : WagerTransaction) (events : List Builder) (result : WagerResult) (w : World)
      → Working t w.db
      → Ensures KeepsValid
          ((sql ports (update_transaction t) >> (save_events ports events >> pure result)) w)
  finish_valid t events result w h =
      Ensures-bind KeepsValid KeepsValid (sql ports (update_transaction t) w) _
        (Ensures-sql ports KeepsValid (update_transaction t) w
          (λ r db e. (update_transaction-Valid t w.db h.valid h.good h.held e).0))
        (λ r w' v.
          Ensures-bind KeepsValid KeepsValid (save_events ports events w') _
            (save_events-Valid events w' v) (λ u w'' v'. v'))

  transition_valid :
      (t : WagerTransaction) (next : Result WagerTransaction)
      (events : WagerTransaction → List Builder) (result : WagerTransaction → WagerResult)
      (w : World)
      → ((t' : WagerTransaction) → next ≡ ok t' → Step t t')
      → Working t w.db
      → Ensures KeepsValid (
          (lift next >>= λ t'.
          sql ports (update_transaction t') >> (save_events ports (events t') >> pure (result t')))
            w)
  transition_valid t next events result w step h =
      Ensures-bind Working KeepsValid (lift next w) _
        (Ensures-lift ports Working next w (λ t' e. Step-Working w.db (step t' e) h))
        (λ t' w' h'. finish_valid t' (events t') (result t') w' h')

  pub conclude-Valid :
      (t : WagerTransaction) (balance : Money) (change : Option BalanceChange) (now : Time)
      (meta : Metadata) (w : World)
      → Working t w.db
      → Ensures KeepsValid (conclude ports t balance change now meta w)
  unfolding conclude
  conclude-Valid t balance change now meta w h =
      transition_valid t (mark_as_processed t balance now)
        (λ t'. processed_events ports t' change meta) (λ t'. concluded ports t' balance) w
        (λ t' e. process balance now e) h

  pub reject_operation-Valid :
      (t : WagerTransaction) (code : FailureCode) (now : Time) (meta : Metadata) (w : World)
      → Working t w.db
      → Ensures KeepsValid (reject_operation ports t code now meta w)
  unfolding reject_operation
  reject_operation-Valid t code now meta w h =
      transition_valid t (reject t code now)
        (λ t'. (λ id. new_wager_transaction_rejected id t' meta) ∷ [])
        (λ t'. rejected ports t' code) w (λ t' e. refuse code now e) h

  pub park-Valid :
      (t : WagerTransaction) (now : Time) (meta : Metadata) (w : World)
      → Working t w.db
      → Ensures KeepsValid (park_operation ports t now meta w)
  unfolding park_operation
  park-Valid t now meta w h =
      Ensures-if ports KeepsValid (is_pending_reference t.state) _ _ w (λ e. h.valid)
        (λ e.
          transition_valid t (mark_as_pending_reference t now)
            (λ t'. (λ id. new_wager_transaction_pending_reference id t' meta) ∷ [])
            (λ t'. waiting ports t') w (λ t' e. park now e) h)
