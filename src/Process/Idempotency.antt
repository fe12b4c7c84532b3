-- ===== src/Process/Idempotency.antt =====
-- The outcomes of `Execute` that a stored operation decides.
use distributed_wallet_api.Prelude.{
  ◌≡◌, ◌≢◌, refl, sym, subst, true, false, Bool-cases, inl, inr, arith, some, Error, Result, ok,
  err, ℕ, zero, suc, ◌+◌, Text, text_eq, text_eq_iff, is_nil, Time, payload_conflict, is_empty,
  if◌then◌else◌, [],
}
use distributed_wallet_api.Transaction.{
  WagerTransaction, FailureCode, other_code, no_code, code_is_empty, is_terminal,
}
use distributed_wallet_api.Transaction.Invariant.{IsTransaction}
use distributed_wallet_api.Money.{no_money}
use distributed_wallet_api.Events.{Metadata}
use distributed_wallet_api.Store.{
  Database, Ports, World, M, within, end_transaction, bind_result, find_row, has_external_id,
  find_by_provider_and_external_id,
}
use distributed_wallet_api.Store.RoundTrip.{scan_transaction_lem}
use distributed_wallet_api.Store.Search.{All-find}
use distributed_wallet_api.Store.Invariant.{Valid, TransactionOk}
use distributed_wallet_api.Process.Command.{WagerCommand, WagerResult, validate_command, replay_of}
use distributed_wallet_api.Process.Flow.{
  record_operation, recorded, metadata_of, operate, apply_operation,
}
use distributed_wallet_api.Process.Execute.{is_conflict, run_attempts, run_with_retry, execute}

-- The result and the database of a computation.
pub record Yields {A : Type 0} (r : Result A) (db : Database) (x : Result A × World) : Type 0 where
  pub result : x.0 ≡ r
  pub database : x.1.db ≡ db

ok_eq : {A : Type 0} {x y : A} → ok x ≡ ok y → x ≡ y
ok_eq e = cc

ok_or_err : {A : Type 0} {x : A} {e : Error} → ok x ≢ err e
ok_or_err e = cc

module _ {A B : Type 0} where
  Yields-bind :
      (a : A) (db : Database) (x : Result A × World) (f : A → M B) (r : Result B) (db' : Database)
      → Yields (ok a) db x
      → ((w : World) → w.db ≡ db → Yields r db' (f a w))
      → Yields r db' (bind_result x f)
  Yields-bind a db (ok b, w) f r db' h k =
      subst (λ b. Yields r db' (f b w)) (sym (ok_eq h.result)) (k w h.database)
  Yields-bind a db (err e, w) f r db' h k = absurd (ok_or_err (sym h.result))

-- The world in which a SQL transaction runs.
abbrev started : Ports → World → World
started ports w = record w {
  db = ports.others w.begun w.db;
  calls = w.calls + 1;
  begun = w.begun + 1;
}

module _ {A : Type 0} (ports : Ports) (quiet : (n : ℕ) → ports.fails n ≡ false) where
  committed :
      (a : A) (db before : Database) (x : Result A × World)
      → Yields (ok a) db x
      → Yields (ok a) db (end_transaction ports before x)
  committed a db before (ok b, w) h =
      rw (quiet w.calls) (record { result = h.result; database = h.database })
  committed a db before (err e, w) h = absurd (ok_or_err (sym h.result))

  rolled_back :
      (e : Error) (db before : Database) (x : Result A × World)
      → Yields (err e) db x
      → Yields (err e) before (end_transaction ports before x)
  rolled_back e db before (ok b, w) h = absurd (ok_or_err h.result)
  rolled_back e db before (err x, w) h = record { result = h.result; database = refl }

  within-ok :
      (m : M A) (w : World) (a : A)
      → Yields (ok a) (ports.others w.begun w.db) (m (started ports w))
      → Yields (ok a) (ports.others w.begun w.db) (within ports m w)
  unfolding within
  within-ok m w a h =
      rw (quiet w.calls) (
        committed a (ports.others w.begun w.db) (ports.others w.begun w.db) (m (started ports w)) h)

  within-failed :
      (m : M A) (w : World) (e : Error) (db : Database)
      → Yields (err e) db (m (started ports w))
      → Yields (err e) (ports.others w.begun w.db) (within ports m w)
  unfolding within
  within-failed m w e db h =
      rw (quiet w.calls) (rolled_back e db (ports.others w.begun w.db) (m (started ports w)) h)

  -- A first attempt that does not end in a conflict is the only one.
  run_attempts_once :
      (m : M A) (n : ℕ) (w : World) (r : Result A) (db : Database)
      → is_conflict r ≡ false
      → Yields r db (within ports m w)
      → Yields r db (run_attempts ports m n w)
  unfolding run_attempts
  run_attempts_once m zero w r db c h = h
  run_attempts_once m (suc n) w r db c h =
      rw (h.result, c) (record { result = refl; database = h.database })

-- What a stored operation has come to, field by field: its identifier, its state, the balance and
-- the failure code of its outcome, and the mark of a replay.
abbrev pub stored_outcome : WagerTransaction → WagerResult
stored_outcome t = record {
  transaction_id = t.id;
  state = t.state;
  balance = t.result_balance;
  failure_code = t.failure_code;
  replayed = true;
}

-- On a well-formed transaction `replay_of` answers with the stored outcome.
replay_of-stored_outcome : (t : WagerTransaction) → IsTransaction t → replay_of t ≡ stored_outcome t
unfolding replay_of
replay_of-stored_outcome t good = rw (balance, code) refl
  where
    balance :
        (if is_empty t.result_balance.currency then no_money else t.result_balance)
        ≡ t.result_balance
    balance = elim (Bool-cases (is_empty t.result_balance.currency)) [
      | inl e ↦ rw e (sym (good.clean e))
      | inr f ↦ rw f refl
    ]

    code_of : (c : FailureCode) → (if code_is_empty c then no_code else c) ≡ c
    code_of (other_code []) = refl
    code_of _ = refl

    code : (if code_is_empty t.failure_code then no_code else t.failure_code) ≡ t.failure_code
    code = code_of t.failure_code

module _ (ports : Ports) (quiet : (n : ℕ) → ports.fails n ≡ false) (cmd : WagerCommand) where
  -- The lookup of a stored operation.
  find_stored :
      (db : Database) (provider external : Text) {t : WagerTransaction}
      → Valid db
      → find_row (has_external_id provider external) db.transactions ≡ some t
      → find_by_provider_and_external_id provider external db ≡ ok (t, db)
  unfolding find_by_provider_and_external_id
  find_stored db provider external {t} v f =
      let good =
        All-find TransactionOk (has_external_id provider external) db.transactions v.transactions
          f in
      rw (f, scan_transaction_lem t good.entity good.iso) refl

  -- `record` on a stored operation of the same payload.
  record_known :
      (now : Time) (db : Database) (w : World) {t : WagerTransaction}
      → Valid db
      → find_row (has_external_id cmd.provider_id cmd.external_transaction_id) db.transactions
        ≡ some t
      → w.db ≡ db
      → record_operation ports cmd now w
        ≡ recorded ports cmd now (some t) (record w { calls = w.calls + 1 })
  unfolding record_operation
  record_known now db w {t} v f same =
      rw (quiet w.calls, same, find_stored db cmd.provider_id cmd.external_transaction_id v f) refl

  metadata_of-Yields :
      (meta : Metadata) (w : World) → (m : Metadata) × Yields (ok m) w.db (metadata_of ports meta w)
  metadata_of-Yields meta w = elim (Bool-cases (is_nil meta.correlation_id)) [
    | inl t ↦ rw t (
      record meta { correlation_id = ports.ids w.drawn },
      record { result = refl; database = refl },
    )
    | inr f ↦ rw f (meta, record { result = refl; database = refl })
  ]

  module _ (w : World) (t : WagerTransaction) (checked : validate_command cmd ≡ ok tt)
      (valid : Valid (ports.others w.begun w.db))
      (found : find_row
          (has_external_id cmd.provider_id cmd.external_transaction_id)
          (ports.others w.begun w.db).transactions
        ≡ some t) where
    abbrev current : Database
    current = ports.others w.begun w.db

    -- `apply` on a stored operation, from what its branch yields.
    apply_known :
        (r : Result WagerResult)
        → ((now : Time) (meta : Metadata) (w' : World)
            → w'.db ≡ current
            → Yields r current
                (bind_result (recorded ports cmd now (some t) w') (operate ports cmd now meta)))
        → Yields r current (apply_operation ports cmd (started ports w))
    unfolding apply_operation
    apply_known r h =
        let now = ports.clock w.ticks in
        let ticked = record (started ports w) { ticks = w.ticks + 1 } in
        let (meta, y) = metadata_of-Yields cmd.metadata ticked in
        Yields-bind meta current (metadata_of ports cmd.metadata ticked) _ r current y (λ w' same.
          rw (record_known now current w' valid found same)
            (h now meta (record w' { calls = w'.calls + 1 }) same))

    replays :
        t.payload_hash ≡ cmd.payload_hash
        → is_terminal t.state ≡ true
        → Yields (ok (replay_of t)) current (execute ports cmd w)
    unfolding execute run_with_retry
    replays same done = rw checked (
        run_attempts_once ports quiet (apply_operation ports cmd) 2 w (ok (replay_of t)) current
          refl
          (within-ok ports quiet (apply_operation ports cmd) w (replay_of t) (
            apply_known (ok (replay_of t)) (λ now meta w' at.
              rw ((text_eq_iff t.payload_hash cmd.payload_hash).1 same, done)
                (record { result = refl; database = at })))))

    -- A well-formed command for an operation that is stored with the same payload hash and is in a
    -- terminal state returns what the row has: its identifier, state, result balance and failure
    -- code, marked as replayed, and writes nothing. The condition on the environment is that no
    -- call of the database fails and that the database which the SQL transaction sees is valid.
    pub execute_replays :
        t.payload_hash ≡ cmd.payload_hash
        → is_terminal t.state ≡ true
        → Yields (ok (stored_outcome t)) current (execute ports cmd w)
    execute_replays same done =
        let good =
          All-find TransactionOk (has_external_id cmd.provider_id cmd.external_transaction_id)
            current.transactions valid.transactions found in
        subst (λ r. Yields (ok r) current (execute ports cmd w))
          (replay_of-stored_outcome t good.entity) (replays same done)

    -- A well-formed command for an operation that is stored with another payload hash is refused
    -- with the payload conflict, in whatever state the operation is, and writes nothing, if no call
    -- of the database fails and the database is valid.
    pub execute_conflicts :
        t.payload_hash ≢ cmd.payload_hash
        → Yields (err payload_conflict) current (execute ports cmd w)
    unfolding execute run_with_retry
    execute_conflicts apart = rw checked (
        run_attempts_once ports quiet (apply_operation ports cmd) 2 w (err payload_conflict) current
          refl
          (within-failed ports quiet (apply_operation ports cmd) w payload_conflict current (
            apply_known (err payload_conflict) (λ now meta w' at.
              rw (differs t.payload_hash cmd.payload_hash apart)
                (record { result = refl; database = at })))))
      where
        differs : (a b : Text) → a ≢ b → text_eq a b ≡ false
        differs a b ne = ground (arith, text_eq_iff a b)
