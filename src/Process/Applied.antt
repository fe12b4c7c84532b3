-- ===== src/Process/Applied.antt =====
-- The invariant, `apply` and the handling of a message.
use distributed_wallet_api.Prelude.{
  ◌≡◌, ◌≢◌, sym, subst, Bool, true, false, ==_iff, Option, none, some, Error, wallet_not_found, ok,
  ℕ, ◌+◌, ◌<◌, nil_uuid, Time, Text,
}
use distributed_wallet_api.Money.{IsInt64, is_valid_iso4217}
use distributed_wallet_api.Wallet.{Wallet}
use distributed_wallet_api.Transaction.{WagerTransaction, wallet_not_found_code}
use distributed_wallet_api.Events.{Metadata}
use distributed_wallet_api.Store.{
  Database, Ports, World, pure, sql, ◌>>=◌, ◌>>◌, find_row, has_wallet_id, lock_by_id, InboxStatus,
  inbox_new, inbox_in_progress, inbox_completed, register, complete,
}
use distributed_wallet_api.Store.Search.{find-holds}
use distributed_wallet_api.Store.Invariant.{Valid, lock_by_id-ok}
use distributed_wallet_api.Store.Delivery.{register-Valid, complete-Valid}
use distributed_wallet_api.Store.Triples.{Ensures, Ensures-bind, Ensures-sql, Ensures-lookup}
use distributed_wallet_api.Process.Command.{WagerCommand}
use distributed_wallet_api.Process.Flow.{
  no_wallet, record_operation, metadata_of, with_wallet, operate, apply_operation,
}
use distributed_wallet_api.Process.Execute.{handle_message, message_body}
use distributed_wallet_api.Process.Preserve.{Working, KeepsValid, reject_operation-Valid}
use distributed_wallet_api.Process.Resolve.{metadata_of-Unchanged, Unchanged, after_lock-Valid}
use distributed_wallet_api.Process.Received.{Recorded, record_operation-Working}

-- What the environment promises: identifiers that are not nil, a clock that is set, and other
-- instances that keep the database valid.
pub record Sound (ports : Ports) : Type 0 where
  pub ids : (n : ℕ) → ports.ids n ≢ nil_uuid
  pub clock : (n : ℕ) → 0 < ports.clock n
  pub others : (n : ℕ) (db : Database) → Valid db → Valid (ports.others n db)

module _ (ports : Ports) (sound : Sound ports) (cmd : WagerCommand)
    (iso : is_valid_iso4217 cmd.money.currency ≡ true) (in_range : IsInt64 cmd.money.cents) where
  abbrev Locked : WagerTransaction → Option Wallet → Database → Type 0
  Locked t none db = Working t db
  Locked t (some x) db = Working t db × (find_row (has_wallet_id x.id) db.wallets ≡ some x)

  no_wallet-Locked :
      (t : WagerTransaction) (e : Error) (w : World)
      → Working t w.db
      → Ensures (Locked t) (no_wallet ports e w)
  no_wallet-Locked t wallet_not_found w h = h
  no_wallet-Locked t _ w h = tt

  Locked-row :
      (t : WagerTransaction) (w : World) (x : Wallet) (db : Database)
      → Working t w.db
      → lock_by_id cmd.wallet_id w.db ≡ ok (x, db)
      → Locked t (some x) db
  Locked-row t w x db h e =
      let (same, f) = lock_by_id-ok cmd.wallet_id w.db h.valid e in
      let named =
        (==_iff x.id cmd.wallet_id).0 (find-holds (has_wallet_id cmd.wallet_id) w.db.wallets f) in
      (
        subst (Working t) (sym same) h,
        subst (λ d. find_row (has_wallet_id x.id) d.wallets ≡ some x) (sym same)
            (subst (λ id. find_row (has_wallet_id id) w.db.wallets ≡ some x) (sym named) f),
      )

  with_wallet-Valid :
      (t : WagerTransaction) (now : Time) (meta : Metadata) (o : Option Wallet) (w : World)
      → 0 < now
      → Locked t o w.db
      → Ensures KeepsValid (with_wallet ports cmd t now meta o w)
  with_wallet-Valid t now meta none w timed h =
      reject_operation-Valid ports t wallet_not_found_code now meta w h
  with_wallet-Valid t now meta (some x) w timed h =
      after_lock-Valid ports cmd t now meta x w sound.ids h.0 h.1 timed

  operate-Valid :
      (now : Time) (meta : Metadata) (found : WagerTransaction × Bool) (w : World)
      → 0 < now
      → Recorded found w.db
      → Ensures KeepsValid (operate ports cmd now meta found w)
  operate-Valid now meta (t, true) w timed h = h.valid
  operate-Valid now meta (t, false) w timed h =
      Ensures-bind (Locked t) KeepsValid _ _
        (Ensures-lookup ports (Locked t) (lock_by_id cmd.wallet_id) _ w
          (λ x db e. Locked-row t w x db h e)
          (λ e w' same. no_wallet-Locked t e w' (subst (Working t) (sym same) h)))
        (λ o w' k. with_wallet-Valid t now meta o w' timed k)

  pub apply_operation-Valid :
      (w : World) → Valid w.db → Ensures KeepsValid (apply_operation ports cmd w)
  unfolding apply_operation
  apply_operation-Valid w v =
      let now = ports.clock w.ticks in
      let started = record w { ticks = w.ticks + 1 } in
      Ensures-bind (Unchanged w.db) KeepsValid (metadata_of ports cmd.metadata started) _
        (metadata_of-Unchanged ports cmd.metadata started)
        (λ meta w' same.
          Ensures-bind Recorded KeepsValid (record_operation ports cmd now w') _
            (record_operation-Working ports cmd iso in_range now w' (rw same v))
            (λ found w'' h. operate-Valid now meta found w'' (sound.clock w.ticks) h))

  pub message_body-Valid :
      (consumer message_id hash : Text) (w : World)
      → Valid w.db
      → Ensures KeepsValid (message_body ports consumer cmd message_id hash w)
  unfolding message_body
  message_body-Valid consumer message_id hash w v =
      let now = ports.clock w.ticks in
      let started = record w { ticks = w.ticks + 1 } in
      Ensures-bind KeepsValid KeepsValid (sql ports (register consumer message_id hash now) started)
        _
        (Ensures-sql ports KeepsValid (register consumer message_id hash now) started
          (λ s db e. register-Valid consumer message_id hash now w.db v e))
        (λ s w' v'. handled_message s w' v')
    where
      worked :
          (now : Time) (w' : World)
          → Valid w'.db
          → Ensures KeepsValid (
              (apply_operation ports cmd >>= λ outcome.
              sql ports (complete consumer message_id now) >> pure outcome)
                w')
      worked now w' v' =
          Ensures-bind KeepsValid KeepsValid (apply_operation ports cmd w') _
            (apply_operation-Valid w' v')
            (λ outcome w'' v''.
              Ensures-bind KeepsValid KeepsValid (sql ports (complete consumer message_id now) w'')
                _
                (Ensures-sql ports KeepsValid (complete consumer message_id now) w''
                  (λ r db e. complete-Valid consumer message_id now w''.db v'' e))
                (λ r w3 v3. v3))

      handled_message :
          (s : InboxStatus) (w' : World)
          → Valid w'.db
          → Ensures KeepsValid
              (handle_message ports consumer cmd message_id (ports.clock w.ticks) s w')
      handled_message inbox_completed w' v' = v'
      handled_message inbox_new w' v' = worked (ports.clock w.ticks) w' v'
      handled_message inbox_in_progress w' v' = worked (ports.clock w.ticks) w' v'
