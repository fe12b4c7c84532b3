-- ===== src/Process/Missing.antt =====
-- An operation on a wallet that the database does not hold in that currency.
use distributed_wallet_api.Prelude.{
  ◌≡◌, ◌≢◌, refl, ◌∙◌, false, ◌==◌, ◌&&◌, Bool-cases, inl, inr, arith, Option, none, some, Error,
  transaction_not_found, Result, ok, err, ℕ, zero, suc, ◌+◌, text_eq, Time,
}
use distributed_wallet_api.Events.{Metadata}
use distributed_wallet_api.Transaction.{
  WagerTransaction, ExternalTransactionParams, new_external_transaction,
}
use distributed_wallet_api.Store.{
  Database, Ports, World, M, lift, sql, ◌>>◌, within, end_transaction, find_row, any_row,
  has_external_id, find_by_provider_and_external_id, insert_transaction, is_wallet_of,
}
use distributed_wallet_api.Store.Triples.{
  Ensures, Ensures-bind, Ensures-sql, Ensures-lift, Ensures-lookup,
}
use distributed_wallet_api.Process.Command.{WagerCommand, WagerResult, validate_command}
use distributed_wallet_api.Process.Flow.{
  no_transaction, as_command, params_of, recorded, record_operation, metadata_of, apply_operation,
}
use distributed_wallet_api.Process.Execute.{is_conflict, run_attempts, run_with_retry, execute}
use distributed_wallet_api.Process.Received.{as_command-ok}
use distributed_wallet_api.Process.Resolve.{Unchanged}
use distributed_wallet_api.Process.Resolve.{metadata_of-Unchanged}
use distributed_wallet_api.Process.Atomicity.{within-conflict}

lifted_ok :
    {A B : Type 0} (r : Result A) (k : M B) (w : World) {b : B}
    → (k w).0 ≢ ok b
    → ((lift r >> k) w).0 ≢ ok b
lifted_ok (ok _) k w h = h
lifted_ok (err x) k w h = λ e. cc

abbrev Never : {A : Type 0} → A → Database → Type 0
Never _ _ = ⊥

insert_transaction-no_wallet :
    (t : WagerTransaction) (db : Database) {r : Unit {0}} {db' : Database}
    → any_row (is_wallet_of t) db.wallets ≡ false
    → insert_transaction t db ≢ ok (r, db')
unfolding insert_transaction
insert_transaction-no_wallet t db h e = ground arith

new_external_transaction-wallet :
    (p : ExternalTransactionParams) {t : WagerTransaction}
    → new_external_transaction p ≡ ok t
    → (t.wallet_id ≡ p.wallet_id) × (t.money ≡ p.money)
unfolding new_external_transaction
new_external_transaction-wallet p e = ground arith

Never-ok : {A : Type 0} (x : Result A × World) → Ensures Never x → (a : A) → x.0 ≢ ok a
Never-ok (ok b, w) h a e = h
Never-ok (err e', w) h a e = cc

committed-ok :
    {A : Type 0} (ports : Ports) (before : Database) (x : Result A × World) (a : A)
    → (end_transaction ports before x).0 ≡ ok a
    → x.0 ≡ ok a
committed-ok ports before (ok b, w) a e = ground arith
committed-ok ports before (err e', w) a e = e

within-Never :
    {A : Type 0} (ports : Ports) (m : M A) (w : World)
    → ((w' : World) → w'.db ≡ ports.others w.begun w.db → Ensures Never (m w'))
    → (a : A) → (within ports m w).0 ≢ ok a
unfolding within
within-Never ports m w h a e =
    let db = ports.others w.begun w.db in
    let start = record w { db = db; calls = w.calls + 1; begun = w.begun + 1 } in
    elim (Bool-cases (ports.fails w.calls)) [
      | inl t ↦ ground arith
      | inr f ↦ Never-ok (m start) (h start refl) a (committed-ok ports db (m start) a (rw f at e))
    ]

module _ (ports : Ports) (alone : (n : ℕ) (db : Database) → ports.others n db ≡ db)
    (cmd : WagerCommand) (db : Database)
    (unknown : find_row
        (has_external_id cmd.provider_id cmd.external_transaction_id)
        db.transactions
      ≡ none)
    (missing : any_row
        (λ x. x.id == cmd.wallet_id && text_eq x.balance.currency cmd.money.currency)
        db.wallets
      ≡ false) where
  abbrev Nothing : Option WagerTransaction → Database → Type 0
  Nothing o db' = (o ≡ none) × (db' ≡ db)

  not_found :
      (t : WagerTransaction) (db' : Database)
      → find_by_provider_and_external_id cmd.provider_id cmd.external_transaction_id db
        ≢ ok (t, db')
  unfolding find_by_provider_and_external_id
  not_found t db' e = ground arith

  no_transaction-Nothing :
      (e : Error) (w : World) → w.db ≡ db → Ensures Nothing (no_transaction ports e w)
  no_transaction-Nothing transaction_not_found w h = (refl, h)
  no_transaction-Nothing _ w h = tt

  recorded-Never :
      (now : Time) (o : Option WagerTransaction) (w : World)
      → o ≡ none
      → w.db ≡ db
      → Ensures Never (recorded ports cmd now o w)
  recorded-Never now (some t) w h same = absurd (ground arith)
  recorded-Never now none w h same =
      let next = new_external_transaction (params_of cmd (ports.ids w.drawn) now) in
      let drawn = record w { drawn = w.drawn + 1 } in
      Ensures-bind (λ t db'. (next ≡ ok t) × (db' ≡ db)) Never (lift (as_command next) drawn) _
        (Ensures-lift ports (λ t db'. (next ≡ ok t) × (db' ≡ db)) (as_command next) drawn
          (λ t e. (as_command-ok next e, same)))
        (λ t w' k.
          Ensures-bind Never Never (sql ports (insert_transaction t) w') _
            (Ensures-sql ports Never (insert_transaction t) w' (λ r db' e.
              let (wallet, money) =
                new_external_transaction-wallet (params_of cmd (ports.ids w.drawn) now) k.0 in
              insert_transaction-no_wallet t w'.db (rw (k.1, wallet, money) missing) e))
            (λ r w'' f. absurd f))

  record_operation-Never :
      (now : Time) (w : World) → w.db ≡ db → Ensures Never (record_operation ports cmd now w)
  unfolding record_operation
  record_operation-Never now w same =
      Ensures-bind Nothing Never _ _
        (Ensures-lookup ports Nothing
          (find_by_provider_and_external_id cmd.provider_id cmd.external_transaction_id) _ w
          (λ t db' e. absurd (not_found t db' (rw same at e)))
          (λ e w' at. no_transaction-Nothing e w' (at ∙ same)))
        (λ o w' k. recorded-Never now o w' k.0 k.1)

  apply_operation-Never : (w : World) → w.db ≡ db → Ensures Never (apply_operation ports cmd w)
  unfolding apply_operation
  apply_operation-Never w same =
      let now = ports.clock w.ticks in
      let ticked = record w { ticks = w.ticks + 1 } in
      Ensures-bind (Unchanged {A = Metadata} w.db) Never (metadata_of ports cmd.metadata ticked) _
        (metadata_of-Unchanged ports cmd.metadata ticked)
        (λ meta w' at.
          Ensures-bind Never Never (record_operation ports cmd now w') _
            (record_operation-Never now w' (at ∙ same)) (λ r w'' f. absurd f))

  within_operation-Never :
      (w : World)
      → w.db ≡ db
      → (r : WagerResult) → (within ports (apply_operation ports cmd) w).0 ≢ ok r
  within_operation-Never w same =
      within-Never ports (apply_operation ports cmd) w
        (λ w' at. apply_operation-Never w' (at ∙ alone w.begun w.db ∙ same))

  run_attempts-Never :
      (n : ℕ) (w : World)
      → w.db ≡ db
      → (r : WagerResult) → (run_attempts ports (apply_operation ports cmd) n w).0 ≢ ok r
  unfolding run_attempts
  run_attempts-Never zero w same r e = within_operation-Never w same r e
  run_attempts-Never (suc n) w same r e =
      elim (Bool-cases (is_conflict (within ports (apply_operation ports cmd) w).0)) [
        | inl t ↦
            run_attempts-Never n (within ports (apply_operation ports cmd) w).1
              (within-conflict ports (apply_operation ports cmd) w t ∙ alone w.begun w.db ∙ same) r
              (rw t at e)
        | inr f ↦ within_operation-Never w same r (rw f at e)
      ]

  -- A new operation on a wallet identifier and currency that no wallet row has never gets a result
  -- from `Execute`, not even a rejection, where no other instance writes: the foreign key refuses
  -- the row before the wallet is looked up.
  pub execute-missing_wallet :
      (w : World) → w.db ≡ db → (r : WagerResult) → (execute ports cmd w).0 ≢ ok r
  unfolding execute run_with_retry
  execute-missing_wallet w same r e =
      lifted_ok (validate_command cmd) (run_with_retry ports (apply_operation ports cmd)) w
        (run_attempts-Never 2 w same r) e
