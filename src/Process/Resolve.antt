-- ===== src/Process/Resolve.antt =====
-- The invariant, `resolveReference` and the flow of `apply` from the lock of the wallet on.
use distributed_wallet_api.Prelude.{
  ◌≡◌, ◌≢◌, refl, sym, subst, Bool, true, false, not, ◌==◌, Option, none, some, Error,
  transaction_not_found, ok, ℕ, ◌<◌, Uuid, nil_uuid, is_nil, Time, text_eq,
}
use distributed_wallet_api.Wallet.{Wallet}
use distributed_wallet_api.Transaction.{
  WagerTransaction, FailureCode, is_terminal, is_processed, requires_reference,
  reference_not_processed, reference_mismatch, already_reversed, wallet_not_found_code,
  currency_mismatch_code, resolve_reference,
}
use distributed_wallet_api.Transaction.Invariant.{resolve}
use distributed_wallet_api.Events.{Metadata}
use distributed_wallet_api.Store.{
  Database, Ports, World, M, lift, sql, find_row, has_wallet_id, find_by_provider_and_external_id,
  has_processed_reversal,
}
use distributed_wallet_api.Store.Invariant.{Valid, find_by_provider_and_external_id-ok}
use distributed_wallet_api.Store.Triples.{
  Ensures, Ensures-bind, Ensures-sql, Ensures-lift, Ensures-if, Ensures-lookup,
}
use distributed_wallet_api.Process.Command.{WagerCommand, WagerResult, agrees}
use distributed_wallet_api.Process.Flow.{
  metadata_of, no_transaction, Resolution, decided, carry_on, decide, reversal, resolve_against,
  resolve_reference_of, resume, after_lock, park_operation, reject_operation,
}
use distributed_wallet_api.Process.Preserve.{
  Working, Step-Working, KeepsValid, reject_operation-Valid, park-Valid,
}
use distributed_wallet_api.Process.Settle.{settle-Valid}

-- What the lookup leaves: an operation that is decided, or a transaction to settle on an
-- unchanged database.
abbrev Resolved : Database → Resolution → Database → Type 0
Resolved before (decided _) db = Valid db
Resolved before (carry_on t _) db = Working t db × (db ≡ before)

-- The database is as it was, whatever the lookup found.
abbrev pub Unchanged : {A : Type 0} → Database → A → Database → Type 0
Unchanged before _ db = db ≡ before

module _ (ports : Ports) where
  pub metadata_of-Unchanged :
      (meta : Metadata) (w : World)
      → Ensures (Unchanged {A = Metadata} w.db) (metadata_of ports meta w)
  metadata_of-Unchanged meta w =
      Ensures-if ports (Unchanged {A = Metadata} w.db) (is_nil meta.correlation_id) _ _ w
        (λ _. refl) (λ _. refl)

  decide-Resolved :
      (before : Database) (m : M WagerResult) (w : World)
      → Ensures KeepsValid (m w)
      → Ensures (Resolved before) (decide ports m w)
  decide-Resolved before m w h = Ensures-bind KeepsValid (Resolved before) (m w) _ h (λ r w' v. v)

  reversal-Resolved :
      (t reference : WagerTransaction) (now : Time) (meta : Metadata) (b : Bool) (w : World)
      → Working t w.db
      → Ensures (Resolved w.db) (reversal ports t reference now meta b w)
  reversal-Resolved t reference now meta true w h =
      decide-Resolved w.db (reject_operation ports t already_reversed now meta) w
        (reject_operation-Valid ports t already_reversed now meta w h)
  reversal-Resolved t reference now meta false w h =
      Ensures-bind (λ t' db. Working t' db × (db ≡ w.db)) (Resolved w.db)
        (lift (resolve_reference t reference.id now) w) _
        (Ensures-lift ports (λ t' db. Working t' db × (db ≡ w.db))
          (resolve_reference t reference.id now) w
          (λ t' e. (Step-Working w.db (resolve reference.id now e) h, refl)))
        (λ t' w' h'. h')

  rejecting :
      (t : WagerTransaction) (code : FailureCode) (now : Time) (meta : Metadata) (before : Database)
      (w : World)
      → Working t w.db
      → Ensures (Resolved before) (decide ports (reject_operation ports t code now meta) w)
  rejecting t code now meta before w h =
      decide-Resolved before (reject_operation ports t code now meta) w
        (reject_operation-Valid ports t code now meta w h)

  parking :
      (t : WagerTransaction) (now : Time) (meta : Metadata) (before : Database) (w : World)
      → Working t w.db
      → Ensures (Resolved before) (decide ports (park_operation ports t now meta) w)
  parking t now meta before w h =
      decide-Resolved before (park_operation ports t now meta) w (park-Valid ports t now meta w h)

  has_processed_reversal_lem :
      (id : Uuid) (before : Database) {b : Bool} {db : Database}
      → has_processed_reversal id before ≡ ok (b, db)
      → db ≡ before
  unfolding has_processed_reversal
  has_processed_reversal_lem id before e = cc

  resolve_against-Resolved :
      (t : WagerTransaction) (o : Option WagerTransaction) (now : Time) (meta : Metadata)
      (w : World)
      → Working t w.db
      → Ensures (Resolved w.db) (resolve_against ports t o now meta w)
  resolve_against-Resolved t none now meta w h = parking t now meta w.db w h
  resolve_against-Resolved t (some reference) now meta w h =
      Ensures-if ports (Resolved w.db) (not (is_terminal reference.state)) _ _ w
        (λ _. parking t now meta w.db w h)
        (λ _.
          Ensures-if ports (Resolved w.db) (not (is_processed reference.state)) _ _ w
            (λ _. rejecting t reference_not_processed now meta w.db w h)
            (λ _.
              Ensures-if ports (Resolved w.db) (not (agrees t reference)) _ _ w
                (λ _. rejecting t reference_mismatch now meta w.db w h)
                (λ _.
                  Ensures-bind (Unchanged w.db) (Resolved w.db)
                    (sql ports (has_processed_reversal reference.id) w) _
                    (Ensures-sql ports (Unchanged w.db) (has_processed_reversal reference.id) w
                      (λ b db e. has_processed_reversal_lem reference.id w.db e))
                    (λ b w' same.
                      subst (λ d. Ensures (Resolved d) (reversal ports t reference now meta b w'))
                        same
                        (reversal-Resolved t reference now meta b w'
                          (subst (Working t) (sym same) h))))))

  pub missing-Unchanged :
      (before : Database) (e : Error) (w : World)
      → w.db ≡ before
      → Ensures (Unchanged before) (no_transaction ports e w)
  missing-Unchanged before transaction_not_found w h = h
  missing-Unchanged before _ w h = tt

  resolve_reference_of-Resolved :
      (t : WagerTransaction) (now : Time) (meta : Metadata) (w : World)
      → Working t w.db
      → Ensures (Resolved w.db) (resolve_reference_of ports t now meta w)
  unfolding resolve_reference_of
  resolve_reference_of-Resolved t now meta w h =
      Ensures-if ports (Resolved w.db) (not (requires_reference t.kind)) _ _ w (λ _. (h, refl))
        (λ _.
          Ensures-bind (Unchanged w.db) (Resolved w.db) _ _
            (Ensures-lookup ports (Unchanged {A = Option WagerTransaction} w.db)
              (find_by_provider_and_external_id t.provider_id t.reference_external_id) _ w
              (λ r db e.
                (find_by_provider_and_external_id-ok t.provider_id t.reference_external_id w.db
                  h.valid e).0)
              (λ e w' same. missing-Unchanged w.db e w' same))
            (λ o w' same.
              subst (λ d. Ensures (Resolved d) (resolve_against ports t o now meta w')) same
                (resolve_against-Resolved t o now meta w' (subst (Working t) (sym same) h))))

  pub after_lock-Valid :
      (cmd : WagerCommand) (t : WagerTransaction) (now : Time) (meta : Metadata) (x : Wallet)
      (w : World)
      → ((n : ℕ) → ports.ids n ≢ nil_uuid)
      → Working t w.db
      → find_row (has_wallet_id x.id) w.db.wallets ≡ some x
      → 0 < now
      → Ensures KeepsValid (after_lock ports cmd t now meta x w)
  unfolding after_lock
  after_lock-Valid cmd t now meta x w has_ids h found timed =
      Ensures-if ports KeepsValid (not (x.player_id == cmd.player_id)) _ _ w
        (λ _. reject_operation-Valid ports t wallet_not_found_code now meta w h)
        (λ _.
          Ensures-if ports KeepsValid (not (text_eq x.balance.currency cmd.money.currency)) _ _ w
            (λ _. reject_operation-Valid ports t currency_mismatch_code now meta w h)
            (λ _.
              Ensures-bind (Resolved w.db) KeepsValid (resolve_reference_of ports t now meta w) _
                (resolve_reference_of-Resolved t now meta w h) (λ r w' k. resumed r w' k)))
    where
      resumed :
          (r : Resolution) (w' : World)
          → Resolved w.db r w'.db
          → Ensures KeepsValid (resume ports x now meta r w')
      resumed (decided r) w' v = v
      resumed (carry_on t' o) w' k =
          settle-Valid ports has_ids x t' o now meta w' k.0 (rw k.1 found) timed
