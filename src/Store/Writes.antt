-- ===== src/Store/Writes.antt =====
-- The invariant and the statements that write transactions (transaction-repository.go).
use distributed_wallet_api.Prelude.{
  ℕ, ◌≤◌, ◌≡◌, ◌≢◌, refl, sym, ◌∙◌, subst, Bool, true, false, not, ◌&&◌, ◌==◌, ==_iff, some, List,
  [], ◌∷◌, ◌++◌, arith, Bool-cases, inl, inr, Uuid, nil_uuid, ok,
}
use distributed_wallet_api.Transaction.{WagerTransaction, is_processed, requires_reference}
use distributed_wallet_api.Store.Tables.{
  Database, find_row, any_row, update_rows, has_transaction_id, reverses,
}
use distributed_wallet_api.Store.Repositories.{
  insert_transaction, update_transaction, write_outcome, with_outcome, collides, reversal_collides,
}
use distributed_wallet_api.Store.Search.{
  Distinct, count_rows, All-append, Distinct-append, Distinct-update, count_rows-append,
  count_rows-update, count_rows-update_only, update-All, find_update,
}
use distributed_wallet_api.Store.Invariant.{Valid, Holds, TransactionOk, transaction_key}

-- A row that collides with nothing has a new identifier.
-- A row that collides with nothing has a new identifier.
pub fresh_id :
    (t : WagerTransaction) (ts : List WagerTransaction)
    → any_row (collides t) ts ≡ false
    → any_row (has_transaction_id t.id) ts ≡ false
fresh_id t [] h = refl
fresh_id t (x ∷ ts) h = ground (arith, fresh_id t ts)

find_appended :
    (t : WagerTransaction) (ts : List WagerTransaction)
    → any_row (has_transaction_id t.id) ts ≡ false
    → find_row (has_transaction_id t.id) (ts ++ t ∷ []) ≡ some t
find_appended t [] h = ground arith
find_appended t (x ∷ ts) h = ground (arith, find_appended t ts)

pub insert_transaction-inv :
    (t : WagerTransaction) (db : Database) {r : Unit {0}} {db' : Database}
    → insert_transaction t db ≡ ok (r, db')
    → (any_row (collides t) db.transactions ≡ false)
      × (db' ≡ record db { transactions = db.transactions ++ t ∷ [] })
unfolding insert_transaction
insert_transaction-inv t db e = ground arith

and_both : (a b : Bool) → (a && b) ≡ true → (a ≡ true) × (b ≡ true)
and_both a b h = ground arith

not_same : (m n : ℕ) → m ≢ n → (m == n) ≡ false
not_same m n h = ground (arith, ==_iff m n)

not_reversing :
    (r : Uuid) (t : WagerTransaction) → is_processed t.state ≡ false → reverses r t ≡ false
not_reversing r t h = ground arith

-- A new transaction that is not processed keeps the database valid, and is held by it.
pub insert_transaction-Valid :
    (t : WagerTransaction) (db : Database) {r : Unit {0}} {db' : Database}
    → Valid db
    → TransactionOk t
    → is_processed t.state ≡ false
    → insert_transaction t db ≡ ok (r, db')
    → Valid db' × Holds db' t
insert_transaction-Valid t db v good young e =
    let (free, after) = insert_transaction-inv t db e in
    let fresh = fresh_id t db.transactions free in
    rw after (
      record {
        wallets = v.wallets;
        wallet_ids = v.wallet_ids;
        transactions = All-append TransactionOk db.transactions t v.transactions good;
        transaction_ids = Distinct-append transaction_key db.transactions t v.transaction_ids fresh;
        reversals = λ r n.
            rw (count_rows-append (reverses r) db.transactions t)
              (ground (arith, v.reversals r n, not_reversing r t young));
        postings = v.postings;
      },
      record { stored = t; found = find_appended t db.transactions fresh; same = refl },
    )

write_outcome-inv :
    (t old : WagerTransaction) (db : Database) {r : Unit {0}} {db' : Database}
    → write_outcome t (some old) db ≡ ok (r, db')
    → (any_row (reversal_collides t) db.transactions ≡ false)
      × (db' ≡ record db {
        transactions = update_rows (has_transaction_id t.id) (with_outcome t) db.transactions;
      })
write_outcome-inv t old db e = ground arith

update_transaction-inv :
    (t : WagerTransaction) (db : Database) {old : WagerTransaction} {r : Unit {0}} {db' : Database}
    → find_row (has_transaction_id t.id) db.transactions ≡ some old
    → update_transaction t db ≡ ok (r, db')
    → (any_row (reversal_collides t) db.transactions ≡ false)
      × (db' ≡ record db {
        transactions = update_rows (has_transaction_id t.id) (with_outcome t) db.transactions;
      })
unfolding update_transaction
update_transaction-inv t db {old} f e = write_outcome-inv t old db (rw f at e)

same_condition :
    (t y : WagerTransaction) (r : Uuid)
    → r ≢ nil_uuid
    → reverses r t ≡ true
    → reversal_collides t y ≡ (not (y.id == t.id) && reverses r y)
same_condition t y r n h =
    let same : t.reference_transaction_id ≡ r =
      (==_iff t.reference_transaction_id r).0
        (and_both (t.reference_transaction_id == r)
          (is_processed t.state && requires_reference t.kind) h).0 in
    let named : (t.reference_transaction_id == nil_uuid) ≡ false =
      not_same t.reference_transaction_id nil_uuid (λ e. n (sym same ∙ e)) in
    let (now_processed, reversing) =
      and_both (is_processed t.state) (requires_reference t.kind)
        (and_both (t.reference_transaction_id == r)
          (is_processed t.state && requires_reference t.kind) h).1 in
    rw (now_processed, reversing, named, same) refl

no_other_reversal :
    (t : WagerTransaction) (r : Uuid)
    → r ≢ nil_uuid
    → reverses r t ≡ true
    → (ts : List WagerTransaction) → any_row (reversal_collides t) ts ≡ false
    → any_row (λ y. not (y.id == t.id) && reverses r y) ts ≡ false
no_other_reversal t r n h [] free = refl
no_other_reversal t r n h (y ∷ ts) free =
    let same = same_condition t y r n h in ground (arith, same, no_other_reversal t r n h ts)

reversal_count :
    (t : WagerTransaction) (ts : List WagerTransaction) {old : WagerTransaction} (r : Uuid)
    → r ≢ nil_uuid
    → Distinct transaction_key ts
    → find_row (has_transaction_id t.id) ts ≡ some old
    → with_outcome t old ≡ t
    → any_row (reversal_collides t) ts ≡ false
    → count_rows (reverses r) ts ≤ 1
    → count_rows (reverses r) (update_rows (has_transaction_id t.id) (with_outcome t) ts) ≤ 1
reversal_count t ts {old} r n d f same free few =
    elim (Bool-cases (reverses r (with_outcome t old))) [
      | inl hit ↦
          count_rows-update_only transaction_key (reverses r) t.id (with_outcome t) ts d
            (no_other_reversal t r n (subst (λ x. reverses r x ≡ true) same hit) ts free)
      | inr miss ↦
          ground (
            arith,
            count_rows-update transaction_key (reverses r) t.id (with_outcome t) ts d f miss,
          )
    ]

-- The update of a held transaction keeps the database valid, and the new one is held.
pub update_transaction-Valid :
    (t : WagerTransaction) (db : Database) {r : Unit {0}} {db' : Database}
    → Valid db
    → TransactionOk t
    → Holds db t
    → update_transaction t db ≡ ok (r, db')
    → Valid db' × Holds db' t
update_transaction-Valid t db v good h e =
    let (free, after) = update_transaction-inv t db h.found e in
    rw after (
      record {
        wallets = v.wallets;
        wallet_ids = v.wallet_ids;
        transactions =
            update-All transaction_key (has_transaction_id t.id) (with_outcome t) t.id
              (λ x m. (==_iff x.id t.id).0 m) TransactionOk TransactionOk (λ x n p. p)
              db.transactions v.transaction_ids h.found v.transactions
              (subst TransactionOk (sym h.same) good);
        transaction_ids =
            Distinct-update transaction_key (has_transaction_id t.id) (with_outcome t)
              db.transactions (λ x. refl) v.transaction_ids;
        reversals = λ r n.
            reversal_count t db.transactions r n v.transaction_ids h.found h.same free
              (v.reversals r n);
        postings = v.postings;
      },
      record {
        stored = with_outcome t h.stored;
        found =
            find_update transaction_key t.id (with_outcome t) db.transactions (λ x. refl) h.found;
        same = h.same;
      },
    )
