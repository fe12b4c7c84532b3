-- ===== src/Process/Acknowledged.antt =====
-- A message that `ExecuteFromMessage` answers without an error is completed in the inbox.
use distributed_wallet_api.Prelude.{
  ap, ℕ, zero, suc, ◌+◌, ◌≡◌, refl, Bool, true, false, ◌&&◌, inl, inr, Bool-cases, Option, none,
  some, List, [], ◌∷◌, arith, ok, Text, Time, text_eq_iff,
}
use distributed_wallet_api.Store.{
  Database, Ports, World, M, sql, within, pure, ◌>>=◌, ◌>>◌, InboxRow, any_row, find_row,
  update_rows, is_message, InboxStatus, inbox_new, inbox_in_progress, inbox_completed, register,
  complete, completed, first_delivery, count_attempt, register_row, status_of,
}
use distributed_wallet_api.Store.Search.{any_row-append}
use distributed_wallet_api.Store.Delivery.{register-register_row}
use distributed_wallet_api.Store.Writes.{insert_transaction-inv}
use distributed_wallet_api.Store.Posting.{insert_ledger-inv}
use distributed_wallet_api.Store.Effects.{
  update_balance-effect, update_transaction-effect, save_event-effect,
}
use distributed_wallet_api.Store.Steady.{Stable}
use distributed_wallet_api.Store.Triples.{Ensures, Ensures-bind, Ensures-sql}
use distributed_wallet_api.Process.Command.{WagerCommand, WagerResult, validate_command}
use distributed_wallet_api.Process.Flow.{apply_operation}
use distributed_wallet_api.Process.Execute.{
  is_conflict, run_attempts, run_with_retry, handle_message, message_body, execute_from_message,
}
use distributed_wallet_api.Process.Frame.{apply_operation-Steady}
use distributed_wallet_api.Store.Committed.{within-Ensures, lifted-Ensures, Ensures-result}

-- The inbox has the message.
abbrev pub Registered : Text → Text → Database → Type 0
Registered consumer message_id db = any_row (is_message consumer message_id) db.inbox ≡ true

abbrev pub is_done : InboxRow → Bool
is_done r = elim r.completed_at [ none ↦ false | some _ ↦ true ]

-- The inbox has the message as completed.
abbrev pub Completed : Text → Text → Database → Type 0
Completed consumer message_id db =
    any_row (λ r. is_message consumer message_id r && is_done r) db.inbox ≡ true

module _ (consumer message_id : Text) where
  same_inbox :
      (db db' : Database)
      → db'.inbox ≡ db.inbox
      → Registered consumer message_id db
      → Registered consumer message_id db'
  same_inbox db db' same i = rw same i

  -- The flow itself does not write the inbox.
  Registered-Stable : Stable (Registered consumer message_id)
  Registered-Stable = record {
    balances =
        λ w v db r db' e. same_inbox db db' (ap (λ d. d.inbox) (update_balance-effect w v db e));
    inserts =
        λ t db r db' e. same_inbox db db' (ap (λ d. d.inbox) (insert_transaction-inv t db e).1);
    updates =
        λ t db r db' e. same_inbox db db' (ap (λ d. d.inbox) (update_transaction-effect t db e).3);
    entries = λ x db r db' e. same_inbox db db' (ap (λ d. d.inbox) (insert_ledger-inv x db e).1);
    events = λ x db r db' e. same_inbox db db' (ap (λ d. d.inbox) (save_event-effect x db e));
  }

  completed_rows :
      (now : Time) (rows : List InboxRow)
      → any_row (is_message consumer message_id) rows ≡ true
      → any_row
          (λ r. is_message consumer message_id r && is_done r)
          (update_rows (is_message consumer message_id) (completed now) rows)
        ≡ true
  completed_rows now [] h = cc
  completed_rows now (r ∷ rs) h = ground (arith, completed_rows now rs)

  complete-Completed :
      (now : Time) (db : Database) (r : Unit {0}) (db' : Database)
      → Registered consumer message_id db
      → complete consumer message_id now db ≡ ok (r, db')
      → Completed consumer message_id db'
  unfolding complete
  complete-Completed now db r db' i e = ground (arith, completed_rows now db.inbox i)

  -- What a registration tells.
  abbrev Status : InboxStatus → Database → Type 0
  Status inbox_completed db = Completed consumer message_id db
  Status _ db = Registered consumer message_id db

  counted_rows :
      (rows : List InboxRow) {r : InboxRow}
      → find_row (is_message consumer message_id) rows ≡ some r
      → any_row
          (is_message consumer message_id)
          (update_rows (is_message consumer message_id) count_attempt rows)
        ≡ true
  counted_rows [] e = cc
  counted_rows (x ∷ rows) {r} e = ground (arith, counted_rows rows {r = r})

  counted_done :
      (rows : List InboxRow) {r : InboxRow}
      → find_row (is_message consumer message_id) rows ≡ some r
      → is_done r ≡ true
      → any_row
          (λ x. is_message consumer message_id x && is_done x)
          (update_rows (is_message consumer message_id) count_attempt rows)
        ≡ true
  counted_done [] e d = cc
  counted_done (x ∷ rows) {r} e d = ground (arith, counted_done rows {r = r})

  registered_before :
      (hash : Text) (now : Time) (row : InboxRow) (db : Database) {s : InboxStatus} {db' : Database}
      → register_row consumer message_id hash now (some row) db ≡ ok (s, db')
      → (s ≡ status_of row.completed_at)
        × (db'.inbox ≡ update_rows (is_message consumer message_id) count_attempt db.inbox)
  registered_before hash now row db e = ground arith

  status_of-Status :
      (o : Option Time) (row : InboxRow) (db db' : Database)
      → row.completed_at ≡ o
      → find_row (is_message consumer message_id) db.inbox ≡ some row
      → db'.inbox ≡ update_rows (is_message consumer message_id) count_attempt db.inbox
      → Status (status_of o) db'
  status_of-Status none row db db' at_row f same = rw same (counted_rows db.inbox f)
  status_of-Status (some t) row db db' at_row f same =
      rw same (counted_done db.inbox f (rw at_row refl))

  register-Status :
      (hash : Text) (now : Time) (db : Database) (s : InboxStatus) (db' : Database)
      → register consumer message_id hash now db ≡ ok (s, db')
      → Status s db'
  register-Status hash now db s db' e =
      go (find_row (is_message consumer message_id) db.inbox) refl
        (register-register_row consumer message_id hash now db e)
    where
      go :
          (o : Option InboxRow)
          → find_row (is_message consumer message_id) db.inbox ≡ o
          → register_row consumer message_id hash now o db ≡ ok (s, db')
          → Status s db'
      go none f e = ground (
        arith,
        any_row-append (is_message consumer message_id) db.inbox
            (first_delivery consumer message_id hash now),
        (text_eq_iff consumer consumer).1 refl,
        (text_eq_iff message_id message_id).1 refl,
      )
      go (some row) f e =
          let (told, same) = registered_before hash now row db e in
          rw told (status_of-Status row.completed_at row db db' refl f same)

  module _ (ports : Ports) (cmd : WagerCommand) where
    applied-Completed :
        (now : Time) (w : World)
        → Registered consumer message_id w.db
        → Ensures
            (λ _ db. Completed consumer message_id db)
            ((apply_operation ports cmd >>= λ outcome.
                sql ports (complete consumer message_id now) >> pure outcome)
              w)
    applied-Completed now w i =
        Ensures-bind (λ _ db. Registered consumer message_id db)
          (λ _ db. Completed consumer message_id db) (apply_operation ports cmd w) _
          (apply_operation-Steady ports (Registered consumer message_id) Registered-Stable cmd w i)
          (λ outcome w' i'.
            Ensures-bind (λ _ db. Completed consumer message_id db)
              (λ _ db. Completed consumer message_id db)
              (sql ports (complete consumer message_id now) w') _
              (Ensures-sql ports (λ _ db. Completed consumer message_id db)
                (complete consumer message_id now) w'
                (λ r db e. complete-Completed now w'.db r db i' e))
              (λ r w'' c. c))

    handle_message-Completed :
        (now : Time) (s : InboxStatus) (w : World)
        → Status s w.db
        → Ensures
            (λ _ db. Completed consumer message_id db)
            (handle_message ports consumer cmd message_id now s w)
    handle_message-Completed now inbox_completed w h = h
    handle_message-Completed now inbox_new w h = applied-Completed now w h
    handle_message-Completed now inbox_in_progress w h = applied-Completed now w h

    pub message_body-Completed :
        (hash : Text) (w : World)
        → Ensures
            (λ _ db. Completed consumer message_id db)
            (message_body ports consumer cmd message_id hash w)
    unfolding message_body
    message_body-Completed hash w =
        let started = record w { ticks = w.ticks + 1 } in
        let now = ports.clock w.ticks in
        Ensures-bind Status (λ _ db. Completed consumer message_id db)
          (sql ports (register consumer message_id hash now) started) _
          (Ensures-sql ports Status (register consumer message_id hash now) started
            (λ s db e. register-Status hash now w.db s db e))
          (λ s w' h. handle_message-Completed now s w' h)

run_attempts-Ensures :
    {A : Type 0} (ports : Ports) (Q : A → Database → Type 0) (m : M A)
    → ((w : World) → Ensures Q (m w))
    → (n : ℕ) (w : World) → Ensures Q (run_attempts ports m n w)
unfolding run_attempts
run_attempts-Ensures ports Q m h zero w = within-Ensures ports Q m h w
run_attempts-Ensures ports Q m h (suc n) w = elim (Bool-cases (is_conflict (within ports m w).0)) [
  | inl t ↦ rw t (run_attempts-Ensures ports Q m h n (within ports m w).1)
  | inr f ↦ rw f (within-Ensures ports Q m h w)
]

-- If `ExecuteFromMessage` returns a result, the inbox has the message as completed in the database
-- that it leaves.
pub execute_from_message-Completed :
    (ports : Ports) (consumer : Text) (cmd : WagerCommand) (message_id hash : Text) (w : World)
    {r : WagerResult}
    → (execute_from_message ports consumer cmd message_id hash w).0 ≡ ok r
    → Completed consumer message_id (execute_from_message ports consumer cmd message_id hash w).1.db
unfolding execute_from_message run_with_retry
execute_from_message-Completed ports consumer cmd message_id hash w e =
    Ensures-result (λ _ db. Completed consumer message_id db) _
      (lifted-Ensures (λ _ db. Completed consumer message_id db) (validate_command cmd)
        (run_with_retry ports (message_body ports consumer cmd message_id hash)) w
        (run_attempts-Ensures ports (λ _ db. Completed consumer message_id db)
          (message_body ports consumer cmd message_id hash)
          (message_body-Completed consumer message_id ports cmd hash) 2 w))
      e
