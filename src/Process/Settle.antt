-- ===== src/Process/Settle.antt =====
-- The invariant and `settle` of process-wager-transaction.go.
use distributed_wallet_api.Prelude.{
  ◌≡◌, ◌≢◌, refl, sym, ◌∙◌, subst, ap, arith, Option, none, some, Error, insufficient_funds, Result,
  ok, err, ℕ, ◌+◌, ◌<◌, ℤ, pos, ◌-ℤ◌, Uuid, nil_uuid, Time,
}
use distributed_wallet_api.Money.{wrap64}
use distributed_wallet_api.Money.Arith.{IsMoney}
use distributed_wallet_api.Wallet.{Wallet, Direction, BalanceChange}
use distributed_wallet_api.Wallet.Movements.{described}
use distributed_wallet_api.Transaction.{WagerTransaction, validate_transaction_identity}
use distributed_wallet_api.Ledger.{WalletLedgerEntry, new_ledger_entry}
use distributed_wallet_api.Ledger.Chain.{
  IsKnown, shifted, iso4217-not_empty, entry_of, new_ledger_entry_moved, entry_of-Posted,
}
use distributed_wallet_api.Events.{Metadata}
use distributed_wallet_api.Store.{
  Database, Ports, World, lift, sql, find_row, has_wallet_id, update_balance, insert_ledger,
}
use distributed_wallet_api.Store.Search.{All-find}
use distributed_wallet_api.Store.Invariant.{WalletOk, Holds, TransactionOk}
use distributed_wallet_api.Store.Posting.{update_balance-inv, posting-Valid}
use distributed_wallet_api.Store.Triples.{Ensures, Ensures-bind, Ensures-sql, Ensures-lift}
use distributed_wallet_api.Process.Command.{movement_of, apply_movement, insufficient_funds_code_of}
use distributed_wallet_api.Process.Flow.{settle, settled, settle_moving}
use distributed_wallet_api.Process.Movement.{
  apply_movement-version, version_room, apply_movement_lem, movement_of-IsKnown,
}
use distributed_wallet_api.Process.Preserve.{
  Working, KeepsValid, conclude-Valid, reject_operation-Valid,
}

-- The row of the transaction is not touched when only other tables change.
Holds-tables :
    (t : WagerTransaction) (db db' : Database)
    → db'.transactions ≡ db.transactions
    → Holds db t
    → Holds db' t
Holds-tables t db db' same h = record { stored = h.stored; found = rw same h.found; same = h.same }

TransactionOk-money : {t : WagerTransaction} → TransactionOk t → IsMoney t.money
TransactionOk-money {t} h = record {
  initialized = iso4217-not_empty t.money.currency h.iso;
  in_range = h.in_range;
}

TransactionOk-id : {t : WagerTransaction} → TransactionOk t → t.id ≢ nil_uuid
unfolding validate_transaction_identity
TransactionOk-id {t} h = ground (arith, h.entity.identity)

ok_eq : {A : Type 0} {x y : A} → ok x ≡ ok y → x ≡ y
ok_eq e = cc

module _ (db : Database) (w : Wallet) (t : WagerTransaction) (d : Direction) (now : Time)
    (id : Uuid) (working : Working t db) (found : find_row (has_wallet_id w.id) db.wallets ≡ some w)
    (timed : 0 < now) (known : IsKnown d) (has_id : id ≢ nil_uuid) where
  stored : WalletOk db.ledger w
  stored = All-find (WalletOk db.ledger) (has_wallet_id w.id) db.wallets working.valid.wallets found

  -- From the movement in memory to the two statements.
  posted_movement :
      (version : ℤ) {w' : Wallet} {change : BalanceChange} {entry : WalletLedgerEntry}
      {r r' : Unit {0}} {db' db'' : Database}
      → apply_movement w d t.money now ≡ (w', ok change)
      → update_balance w' version db ≡ ok (r, db')
      → new_ledger_entry id t.id change ≡ ok entry
      → insert_ledger entry db' ≡ ok (r', db'')
      → Working t db''
  posted_movement version {w'} {change} {entry} {r} {r'} {db'} {db''} e u n i =
      let (old, g, one, there) = update_balance-inv w' version db u in
      let (next, same_version, same_id) = apply_movement-version w d t.money now e in
      let room =
        version_room w.version stored.wallet.versioned stored.wallet.version_fits
          (rw (← next) one) in
      let money = TransactionOk-money working.good in
      let m = apply_movement_lem w t.money now stored.wallet room money timed d known e in
      let cents = shifted d w.balance.cents t.money.cents in
      let has_transaction = TransactionOk-id working.good in
      let built =
        new_ledger_entry_moved id t.id w d t.money now has_id has_transaction stored.wallet known
          money m.same m.one timed m.low m.high in
      let same_entry : entry ≡ entry_of id t.id (described w d t.money cents now) =
        ok_eq (sym n ∙ ap (λ c. new_ledger_entry id t.id c) m.change_lem ∙ built) in
      let (valid, kept) =
        posting-Valid db w (entry_of id t.id (described w d t.money cents now)) version now
          working.valid found room refl m.low m.high
          (entry_of-Posted id t.id w d t.money now has_id has_transaction stored.wallet known money
            m.same m.one timed m.low m.high)
          (subst (λ x. update_balance x version db ≡ ok (r, db')) m.wallet u)
          (subst (λ x. insert_ledger x db' ≡ ok (r', db'')) same_entry i) in
      record { valid = valid; good = working.good; held = Holds-tables t db db'' kept working.held }

module _ (ports : Ports) (has_ids : (n : ℕ) → ports.ids n ≢ nil_uuid) where
  settled-Valid :
      (w : Wallet) (t : WagerTransaction) (d : Direction) (now : Time) (meta : Metadata)
      (outcome : Wallet × Result BalanceChange) (world : World)
      → Working t world.db
      → find_row (has_wallet_id w.id) world.db.wallets ≡ some w
      → 0 < now
      → IsKnown d
      → apply_movement w d t.money now ≡ outcome
      → Ensures KeepsValid (settled ports t now meta outcome world)
  settled-Valid w t d now meta (w', ok change) world h found timed known e =
      let db = world.db in
      let version = wrap64 (change.wallet_version -ℤ pos 1) in
      Ensures-bind (λ r db'. update_balance w' version db ≡ ok (r, db')) KeepsValid
        (sql ports (update_balance w' version) world) _
        (Ensures-sql ports (λ r db'. update_balance w' version db ≡ ok (r, db'))
          (update_balance w' version) world (λ r db' u. u))
        (λ r world' u.
          let id = ports.ids world'.drawn in
          let drawn = record world' { drawn = world'.drawn + 1 } in
          Ensures-bind
            (λ entry db'. (new_ledger_entry id t.id change ≡ ok entry) × (db' ≡ world'.db))
            KeepsValid (lift (new_ledger_entry id t.id change) drawn) _
            (Ensures-lift ports
              (λ entry db'. (new_ledger_entry id t.id change ≡ ok entry) × (db' ≡ world'.db))
              (new_ledger_entry id t.id change) drawn (λ entry n. (n, refl)))
            (λ entry world'' n.
              Ensures-bind (λ _ db'. Working t db') KeepsValid
                (sql ports (insert_ledger entry) world'') _
                (Ensures-sql ports (λ _ db'. Working t db') (insert_ledger entry) world''
                  (λ r' db'' i.
                    posted_movement db w t d now id h found timed known (has_ids world'.drawn)
                      version e u n.0 (rw (← n.1) i)))
                (λ r' last h'. conclude-Valid ports t w'.balance (some change) now meta last h')))
  settled-Valid w t d now meta (w', err x) world h found timed known e = refused_valid x
    where
      refused_valid : (x : Error) → Ensures KeepsValid (settled ports t now meta (w', err x) world)
      refused_valid insufficient_funds =
          reject_operation-Valid ports t (insufficient_funds_code_of t.kind) now meta world h
      refused_valid _ = tt

  pub settle-Valid :
      (w : Wallet) (t : WagerTransaction) (reference : Option WagerTransaction) (now : Time)
      (meta : Metadata) (world : World)
      → Working t world.db
      → find_row (has_wallet_id w.id) world.db.wallets ≡ some w
      → 0 < now
      → Ensures KeepsValid (settle ports w t reference now meta world)
  unfolding settle
  settle-Valid w t reference now meta world h found timed =
      Ensures-bind (λ d db. (movement_of t reference ≡ ok d) × (db ≡ world.db)) KeepsValid
        (lift (movement_of t reference) world) _
        (Ensures-lift ports (λ d db. (movement_of t reference ≡ ok d) × (db ≡ world.db))
          (movement_of t reference) world (λ d e. (e, refl)))
        (λ o world' e. moving o world' e.0 (rw e.1 h) (rw e.1 found))
    where
      moving :
          (o : Option Direction) (world' : World)
          → movement_of t reference ≡ ok o
          → Working t world'.db
          → find_row (has_wallet_id w.id) world'.db.wallets ≡ some w
          → Ensures KeepsValid (settle_moving ports w t now meta o world')
      moving none world' e h' f = conclude-Valid ports t w.balance none now meta world' h'
      moving (some d) world' e h' f =
          settled-Valid w t d now meta (apply_movement w d t.money now) world' h' f timed
            (movement_of-IsKnown t reference e) refl
