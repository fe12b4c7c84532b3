-- ===== src/Process/History.antt =====
-- An operation only adds to what is on record (process-wager-transaction.go).
use distributed_wallet_api.Prelude.{
  ℕ, ◌≡◌, refl, sym, ◌∙◌, ap, Bool, true, false, inl, inr, Bool-cases, some, some_eq, List, [], ◌∷◌,
  ◌++◌, append_assoc, append_nil, arith, ◌==◌, ==_iff, Uuid,
}
use distributed_wallet_api.Wallet.{Wallet}
use distributed_wallet_api.Transaction.{WagerTransaction, is_terminal}
use distributed_wallet_api.Store.{
  Database, Ports, World, find_row, any_row, update_rows, has_wallet_id, has_transaction_id,
  at_version, with_balance, with_outcome,
}
use distributed_wallet_api.Store.Steady.{Stable}
use distributed_wallet_api.Store.Writes.{insert_transaction-inv}
use distributed_wallet_api.Store.Posting.{insert_ledger-inv}
use distributed_wallet_api.Store.Effects.{
  update_balance-effect, update_transaction-effect, save_event-effect,
}
use distributed_wallet_api.Store.Triples.{lifted_keeps}
use distributed_wallet_api.Process.Command.{WagerCommand, validate_command}
use distributed_wallet_api.Process.Flow.{apply_operation}
use distributed_wallet_api.Process.Execute.{run_with_retry, execute}
use distributed_wallet_api.Process.Safety.{run_attempts-keeps}
use distributed_wallet_api.Process.Frame.{apply_operation-Steady}

-- The second list goes on where the first one ends.
abbrev pub Extends : {A : Type 0} → List A → List A → Type 0
Extends {A} xs ys = (more : List A) × (ys ≡ xs ++ more)

-- The record of a database is kept in a later one: the ledger and the outbox go on, a transaction
-- that had come to its end is the same, and a wallet is still there, of the same player.
pub record Grows (old db : Database) : Type 0 where
  pub ledger : Extends old.ledger db.ledger
  pub outbox : Extends old.outbox db.outbox
  pub concluded :
      (id : Uuid) (t : WagerTransaction)
      → find_row (has_transaction_id id) old.transactions ≡ some t
      → is_terminal t.state ≡ true
      → find_row (has_transaction_id id) db.transactions ≡ some t
  pub wallets :
      (id : Uuid)
      → any_row (has_wallet_id id) old.wallets ≡ true
      → any_row (has_wallet_id id) db.wallets ≡ true

Extends-self : {A : Type 0} (xs : List A) → Extends xs xs
Extends-self xs = ([], sym (append_nil xs))

Extends-append : {A : Type 0} (xs ys : List A) (y : A) → Extends xs ys → Extends xs (ys ++ y ∷ [])
Extends-append xs ys y (more, e) =
    (more ++ y ∷ [], ap (λ l. l ++ y ∷ []) e ∙ append_assoc xs more (y ∷ []))

Grows-self : (db : Database) → Grows db db
Grows-self db = record {
  ledger = Extends-self db.ledger;
  outbox = Extends-self db.outbox;
  concluded = λ id t f e. f;
  wallets = λ id h. h;
}

find_row-append :
    {A : Type 0} (p : A → Bool) (xs : List A) (y : A) {x : A}
    → find_row p xs ≡ some x
    → find_row p (xs ++ y ∷ []) ≡ some x
find_row-append p [] y e = cc
find_row-append p (z ∷ xs) y {x} e = ground (arith, find_row-append p xs y {x = x})

any_wallet-update :
    (id : Uuid) (p : Wallet → Bool) (w : Wallet) (ws : List Wallet)
    → any_row (has_wallet_id id) ws ≡ true
    → any_row (has_wallet_id id) (update_rows p (with_balance w) ws) ≡ true
any_wallet-update id p w [] h = h
any_wallet-update id p w (x ∷ ws) h = ground (arith, any_wallet-update id p w ws)

-- An update of another row does not change what a search for an identifier finds.
find_other :
    (id : Uuid) (t : WagerTransaction) (ts : List WagerTransaction)
    → (t.id == id) ≡ false
    → find_row (has_transaction_id id) (update_rows (has_transaction_id t.id) (with_outcome t) ts)
      ≡ find_row (has_transaction_id id) ts
find_other id t [] apart = refl
find_other id t (x ∷ ts) apart = elim (Bool-cases (has_transaction_id t.id x)) [
  | inl here ↦
      let elsewhere : (x.id == id) ≡ false =
        ap (λ i. i == id) ((==_iff x.id t.id).0 here) ∙ apart in
      rw (here, elsewhere, find_other id t ts apart) refl
  | inr gone ↦ rw (gone, find_other id t ts apart) refl
]

-- A row that an update finds is no terminal one.
other_row :
    (id : Uuid) (t row x : WagerTransaction) (ts : List WagerTransaction)
    → find_row (has_transaction_id t.id) ts ≡ some row
    → is_terminal row.state ≡ false
    → find_row (has_transaction_id id) ts ≡ some x
    → is_terminal x.state ≡ true
    → (t.id == id) ≡ false
other_row id t row x ts found unsettled f end = elim (Bool-cases (t.id == id)) [
  | inl same ↦
      let row_x : row ≡ x =
        some_eq (
          sym found ∙ ap (λ i. find_row (has_transaction_id i) ts) ((==_iff t.id id).0 same) ∙ f) in
      absurd (ground (arith, ap (λ (y : WagerTransaction). is_terminal y.state) row_x))
  | inr apart ↦ apart
]

module _ (old : Database) where
  Grows-Stable : Stable (Grows old)
  Grows-Stable = record {
    balances = λ w v db r db' e g. rw (update_balance-effect w v db e) (record {
      ledger = g.ledger;
      outbox = g.outbox;
      concluded = g.concluded;
      wallets = λ id h. any_wallet-update id (at_version w.id v) w db.wallets (g.wallets id h);
    });
    inserts = λ t db r db' e g. rw (insert_transaction-inv t db e).1 (record {
      ledger = g.ledger;
      outbox = g.outbox;
      concluded = λ id x f end.
          find_row-append (has_transaction_id id) db.transactions t (g.concluded id x f end);
      wallets = g.wallets;
    });
    updates = λ t db r db' e g.
        let (row, found, unsettled, whole) = update_transaction-effect t db e in
        rw whole (record {
          ledger = g.ledger;
          outbox = g.outbox;
          concluded = λ id x f end.
              find_other id t db.transactions
                (other_row id t row x db.transactions found unsettled (g.concluded id x f end) end)
              ∙ g.concluded id x f end;
          wallets = g.wallets;
        });
    entries = λ x db r db' e g. rw (insert_ledger-inv x db e).1 (record {
      ledger = Extends-append old.ledger db.ledger x g.ledger;
      outbox = g.outbox;
      concluded = g.concluded;
      wallets = g.wallets;
    });
    events = λ x db r db' e g. rw (save_event-effect x db e) (record {
      ledger = g.ledger;
      outbox = Extends-append old.outbox db.outbox x g.outbox;
      concluded = g.concluded;
      wallets = g.wallets;
    });
  }

-- `Execute` only adds to the record, whatever it returns: the ledger and the outbox keep what they
-- have and go on, a transaction in a terminal state is found unchanged, and no wallet is removed,
-- if the other instances only add too.
pub execute-Grows :
    (ports : Ports) (cmd : WagerCommand) (w : World)
    → ((n : ℕ) (db : Database) → Grows w.db db → Grows w.db (ports.others n db))
    → Grows w.db (execute ports cmd w).1.db
unfolding execute run_with_retry
execute-Grows ports cmd w others =
    lifted_keeps (Grows w.db) (validate_command cmd) _ w (Grows-self w.db) (
      run_attempts-keeps ports (Grows w.db) (apply_operation ports cmd) others
        (apply_operation-Steady ports (Grows w.db) (Grows-Stable w.db) cmd) 2 w (Grows-self w.db))
