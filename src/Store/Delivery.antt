-- ===== src/Store/Delivery.antt =====
-- The invariant and the statements on the outbox and the inbox (outbox-repository.go,
-- inbox-repository.go).
use distributed_wallet_api.Prelude.{
  ◌≡◌, Bool-cases, inl, inr, Option, none, some, List, [], ◌∷◌, ◌++◌, arith, Text, Time, ok,
}
use distributed_wallet_api.Events.{Envelope}
use distributed_wallet_api.Store.Tables.{InboxRow, is_message, Database, find_row, update_rows}
use distributed_wallet_api.Store.Repositories.{
  InboxStatus, first_delivery, register_row, count_attempt, completed, register, complete,
  save_event,
}
use distributed_wallet_api.Store.Checks.{inbox_checks}
use distributed_wallet_api.Store.Invariant.{Valid}

-- The tables that no invariant mentions.
pub Valid-outbox :
    (db : Database) (events : List Envelope) → Valid db → Valid (record db { outbox = events })
Valid-outbox db events v = record {
  wallets = v.wallets;
  wallet_ids = v.wallet_ids;
  transactions = v.transactions;
  transaction_ids = v.transaction_ids;
  reversals = v.reversals;
  postings = v.postings;
}

Valid-inbox : (db : Database) (rows : List InboxRow) → Valid db → Valid (record db { inbox = rows })
Valid-inbox db rows v = record {
  wallets = v.wallets;
  wallet_ids = v.wallet_ids;
  transactions = v.transactions;
  transaction_ids = v.transaction_ids;
  reversals = v.reversals;
  postings = v.postings;
}

pub save_event-Valid :
    (e : Envelope) (db : Database) {r : Unit {0}} {db' : Database}
    → Valid db
    → save_event e db ≡ ok (r, db')
    → Valid db'
unfolding save_event
save_event-Valid e db v h = ground (arith, Valid-outbox db (db.outbox ++ e ∷ []) v)

register_row-Valid :
    (consumer message_id hash : Text) (now : Time) (o : Option InboxRow) (db : Database)
    {r : InboxStatus} {db' : Database}
    → Valid db
    → register_row consumer message_id hash now o db ≡ ok (r, db')
    → Valid db'
register_row-Valid consumer message_id hash now none db v h =
    ground (arith, Valid-inbox db (db.inbox ++ first_delivery consumer message_id hash now ∷ []) v)
register_row-Valid consumer message_id hash now (some row) db v h =
    ground (
      arith,
      Valid-inbox db (update_rows (is_message consumer message_id) count_attempt db.inbox) v,
    )

-- A registration that succeeds is one of the row.
pub register-register_row :
    (consumer message_id hash : Text) (now : Time) (db : Database) {r : InboxStatus}
    {db' : Database}
    → register consumer message_id hash now db ≡ ok (r, db')
    → register_row consumer message_id hash now
        (find_row (is_message consumer message_id) db.inbox)
        db
      ≡ ok (r, db')
unfolding register
register-register_row consumer message_id hash now db h =
    elim (Bool-cases (inbox_checks consumer message_id hash)) [
      | inl t ↦ rw t at h
      | inr f ↦ cc (rw f at h)
    ]

pub register-Valid :
    (consumer message_id hash : Text) (now : Time) (db : Database) {r : InboxStatus}
    {db' : Database}
    → Valid db
    → register consumer message_id hash now db ≡ ok (r, db')
    → Valid db'
register-Valid consumer message_id hash now db v h =
    register_row-Valid consumer message_id hash now
      (find_row (is_message consumer message_id) db.inbox) db v
      (register-register_row consumer message_id hash now db h)

pub complete-Valid :
    (consumer message_id : Text) (now : Time) (db : Database) {r : Unit {0}} {db' : Database}
    → Valid db
    → complete consumer message_id now db ≡ ok (r, db')
    → Valid db'
unfolding complete
complete-Valid consumer message_id now db v h = ground (
  arith,
  Valid-inbox db (update_rows (is_message consumer message_id) (completed now) db.inbox) v,
)
