-- ===== src/Process/Received.antt =====
-- The invariant and `record` of process-wager-transaction.go.
use distributed_wallet_api.Prelude.{
  ◌≡◌, refl, ◌∙◌, Bool, true, false, not, arith, Option, none, some, Error, transaction_not_found,
  Result, ok, err, ◌+◌, Time, text_eq,
}
use distributed_wallet_api.Money.{IsInt64, is_valid_iso4217}
use distributed_wallet_api.Transaction.{
  WagerTransaction, ExternalTransactionParams, new_external_transaction, is_processed,
}
use distributed_wallet_api.Transaction.Invariant.{new_external_transaction-IsTransaction}
use distributed_wallet_api.Store.{
  Database, Ports, World, lift, sql, find_row, find_by_provider_and_external_id, insert_transaction,
}
use distributed_wallet_api.Store.Search.{All-find, find_self}
use distributed_wallet_api.Store.Invariant.{
  Valid, TransactionOk, transaction_key, find_by_provider_and_external_id-ok,
}
use distributed_wallet_api.Store.Writes.{insert_transaction-Valid}
use distributed_wallet_api.Store.Triples.{
  Ensures, Ensures-bind, Ensures-sql, Ensures-lift, Ensures-if, Ensures-lookup,
}
use distributed_wallet_api.Process.Command.{WagerCommand}
use distributed_wallet_api.Process.Flow.{
  params_of, no_transaction, as_command, recorded, record_operation,
}
use distributed_wallet_api.Process.Preserve.{Working}

-- A stored row that a search finds is a transaction to work on.
pub found-Working :
    (p : WagerTransaction → Bool) (db : Database) {t : WagerTransaction}
    → Valid db
    → find_row p db.transactions ≡ some t
    → Working t db
found-Working p db {t} v f = record {
  valid = v;
  good = All-find TransactionOk p db.transactions v.transactions f;
  held = record {
    stored = t;
    found = find_self transaction_key p db.transactions v.transaction_ids f;
    same = refl;
  };
}

pub as_command-ok :
    (r : Result WagerTransaction) {t : WagerTransaction} → as_command r ≡ ok t → r ≡ ok t
as_command-ok (ok x) e = e
as_command-ok (err x) e = cc

new_external_transaction-pending :
    (p : ExternalTransactionParams) {t : WagerTransaction}
    → new_external_transaction p ≡ ok t
    → (t.money ≡ p.money) × (is_processed t.state ≡ false)
unfolding new_external_transaction
new_external_transaction-pending p e = ground arith

-- What `record` leaves: the operation and its row.
abbrev pub Recorded : WagerTransaction × Bool → Database → Type 0
Recorded (t, _) db = Working t db

module _ (ports : Ports) (cmd : WagerCommand) (iso : is_valid_iso4217 cmd.money.currency ≡ true)
    (in_range : IsInt64 cmd.money.cents) where
  fresh_ok :
      (p : ExternalTransactionParams) {t : WagerTransaction}
      → p.money ≡ cmd.money
      → new_external_transaction p ≡ ok t
      → TransactionOk t × (is_processed t.state ≡ false)
  fresh_ok p {t} same e =
      let (money, young) = new_external_transaction-pending p e in
      (
        record {
          entity = new_external_transaction-IsTransaction p e;
          iso = rw (money, same) iso;
          in_range = rw (money, same) in_range;
        },
        young,
      )

  abbrev Fresh : WagerTransaction → Database → Type 0
  Fresh t db = (TransactionOk t × (is_processed t.state ≡ false)) × Valid db

  recorded-Working :
      (now : Time) (o : Option WagerTransaction) (w : World)
      → Valid w.db
      → ((t : WagerTransaction) → o ≡ some t → Working t w.db)
      → Ensures Recorded (recorded ports cmd now o w)
  recorded-Working now (some t) w v h =
      Ensures-if ports Recorded (not (text_eq t.payload_hash cmd.payload_hash)) _ _ w (λ _. tt)
        (λ _. h t refl)
  recorded-Working now none w v h =
      let next = new_external_transaction (params_of cmd (ports.ids w.drawn) now) in
      let drawn = record w { drawn = w.drawn + 1 } in
      Ensures-bind Fresh Recorded (lift (as_command next) drawn) _
        (Ensures-lift ports Fresh (as_command next) drawn (λ t e.
          (fresh_ok (params_of cmd (ports.ids w.drawn) now) refl (as_command-ok next e), v)))
        (λ t w' k.
          Ensures-bind (λ _ db. Working t db) Recorded (sql ports (insert_transaction t) w') _
            (Ensures-sql ports (λ _ db. Working t db) (insert_transaction t) w'
              (λ r db e.
                let (valid, held) = insert_transaction-Valid t w'.db k.1 k.0.0 k.0.1 e in
                record { valid = valid; good = k.0.0; held = held }))
            (λ r w'' h'. h'))

  abbrev Found : Database → Option WagerTransaction → Database → Type 0
  Found before o db = (db ≡ before) × ((t : WagerTransaction) → o ≡ some t → Working t before)

  no_transaction-Found :
      (before : Database) (e : Error) (w : World)
      → w.db ≡ before
      → Ensures (Found before) (no_transaction ports e w)
  no_transaction-Found before transaction_not_found w h = (h, λ t e. cc)
  no_transaction-Found before _ w h = tt

  pub record_operation-Working :
      (now : Time) (w : World) → Valid w.db → Ensures Recorded (record_operation ports cmd now w)
  unfolding record_operation
  record_operation-Working now w v =
      Ensures-bind (Found w.db) Recorded _ _
        (Ensures-lookup ports (Found w.db)
          (find_by_provider_and_external_id cmd.provider_id cmd.external_transaction_id) _ w
          (λ t db e.
            let (same, f) =
              find_by_provider_and_external_id-ok cmd.provider_id cmd.external_transaction_id w.db v
                e in
            (same, λ t' is_t. found-Working _ w.db v (f ∙ is_t)))
          (λ e w' same. no_transaction-Found w.db e w' same))
        (λ o w' k. recorded-Working now o w' (rw k.0 v) (λ t e. rw k.0 (k.1 t e)))
