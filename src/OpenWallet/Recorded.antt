-- ===== src/OpenWallet/Recorded.antt =====
-- The opening transaction, its entry and its events (`recordOpening`).
use distributed_wallet_api.Prelude.{
  ◌+◌, ◌≡◌, ◌∙◌, ap, true, false, [], ◌∷◌, ◌++◌, arith, pos, Uuid, Time, ok,
}
use distributed_wallet_api.Money.{
  Money, zero_money, new_money, is_positive, is_negative, is_valid_iso4217,
}
use distributed_wallet_api.Wallet.{Wallet}
use distributed_wallet_api.Wallet.Movements.{IsWallet}
use distributed_wallet_api.Transaction.{
  WagerTransaction, new_opening_transaction, requires_reference,
}
use distributed_wallet_api.Transaction.Invariant.{new_opening_transaction-IsTransaction}
use distributed_wallet_api.Ledger.{new_ledger_entry}
use distributed_wallet_api.Events.{
  Metadata, new_wager_transaction_processed, new_wallet_balance_changed,
}
use distributed_wallet_api.Ledger.{WalletLedgerEntry}
use distributed_wallet_api.Store.{
  new_id, Database, Ports, World, lift, sql, ◌>>=◌, ◌>>◌, any_row, has_wallet_id,
  has_transaction_id, insert_transaction, insert_ledger,
}
use distributed_wallet_api.Store.Invariant.{Valid, TransactionOk}
use distributed_wallet_api.Store.Writes.{insert_transaction-inv, fresh_id}
use distributed_wallet_api.Store.Posting.{insert_ledger-inv}
use distributed_wallet_api.Store.Triples.{Ensures, Ensures-bind, Ensures-sql, Ensures-lift}
use distributed_wallet_api.Process.{save_events}
use distributed_wallet_api.Process.Preserve.{KeepsValid, save_events-Valid}
use distributed_wallet_api.OpenWallet.{opening_change, record_opening}
use distributed_wallet_api.OpenWallet.Safety.{opened_posted, opening_entry}

new_opening_transaction-fields :
    (id wallet player : Uuid) (amount : Money) (now : Time) {t : WagerTransaction}
    → new_opening_transaction id wallet player amount now ≡ ok t
    → (t.money ≡ amount) × (requires_reference t.kind ≡ false)
unfolding new_opening_transaction
new_opening_transaction-fields id wallet player amount now e = ground arith

zero_money-ok :
    (currency : _) {m : Money}
    → zero_money currency ≡ ok m
    → m ≡ record { cents = pos 0; currency = currency }
unfolding zero_money new_money
zero_money-ok currency e = ground arith

pub not_positive : (m : Money) → is_positive m ≡ false → is_negative m ≡ false → m.cents ≡ pos 0
not_positive m p n = ground arith

-- A wallet in memory and in its row, on a database that was valid before it.
pub record Fresh (before : Database) (balance : Money) (x : Wallet) : Type 0 where
  pub valid : Valid before
  pub wallet : IsWallet x
  pub iso : is_valid_iso4217 x.balance.currency ≡ true
  pub free : any_row (has_wallet_id x.id) before.wallets ≡ false
  pub balance_lem : x.balance ≡ balance

module _ (before : Database) (x : Wallet) where
  abbrev pub after_wallet : Database
  after_wallet = record before { wallets = before.wallets ++ x ∷ [] }

  abbrev after_opening : WagerTransaction → Database
  after_opening t = record after_wallet { transactions = before.transactions ++ t ∷ [] }

  -- The opening transaction, and the database with its row.
  abbrev Entered : WagerTransaction → Database → Type 0
  Entered t db =
      TransactionOk t
      × (requires_reference t.kind ≡ false)
      × (any_row (has_transaction_id t.id) before.transactions ≡ false)
      × (db ≡ after_opening t)

module _ (ports : Ports) (before : Database) (x : Wallet) where
  entered :
      (id : Uuid) (balance : Money) (t : WagerTransaction) (db : Database) {r : Unit {0}}
      {db' : Database}
      → Fresh before balance x
      → new_opening_transaction id x.id x.player_id x.balance x.created_at ≡ ok t
      → db ≡ after_wallet before x
      → insert_transaction t db ≡ ok (r, db')
      → Entered before x t db'
  entered id balance t db h e at i =
      let (money, plain) =
        new_opening_transaction-fields id x.id x.player_id x.balance x.created_at e in
      let (clear, there) = insert_transaction-inv t db i in
      (
        record {
          entity =
              new_opening_transaction-IsTransaction id x.id x.player_id x.balance x.created_at e;
          iso = rw money h.iso;
          in_range = rw money h.wallet.money.in_range;
        },
        plain,
        fresh_id t before.transactions (rw at at clear),
        there ∙ ap (λ (d : Database). record d { transactions = d.transactions ++ t ∷ [] }) at,
      )

  posted :
      (id : Uuid) (balance : Money) (t : WagerTransaction) (zero : Money) (e : WalletLedgerEntry)
      (db : Database) {r : Unit {0}} {db' : Database}
      → Fresh before balance x
      → Entered before x t db
      → zero ≡ record { cents = pos 0; currency = x.balance.currency }
      → new_ledger_entry id t.id (opening_change x zero) ≡ ok e
      → insert_ledger e db ≡ ok (r, db')
      → Valid db'
  posted id balance t zero e db h k z n i =
      let (own, whole, first) = opening_entry id t.id x zero h.wallet.money.in_range z n in
      let there =
        (insert_ledger-inv e db i).1
        ∙ ap (λ (d : Database). record d { ledger = d.ledger ++ e ∷ [] }) k.3 in
      rw there
        (opened_posted before x h.valid h.wallet h.iso h.free t e k.0 k.2 k.1 own whole first)

  pub record_opening-Valid :
      (balance : Money) (meta : Metadata) (w : World)
      → Fresh before balance x
      → w.db ≡ after_wallet before x
      → Ensures KeepsValid (record_opening ports x meta w)
  unfolding record_opening
  record_opening-Valid balance meta w h at =
      let opening_id = ports.ids w.drawn in
      let next = new_opening_transaction opening_id x.id x.player_id x.balance x.created_at in
      let drawn = record w { drawn = w.drawn + 1 } in
      Ensures-bind (λ t db. (next ≡ ok t) × (db ≡ after_wallet before x)) KeepsValid
        (lift next drawn) _
        (Ensures-lift ports (λ t db. (next ≡ ok t) × (db ≡ after_wallet before x)) next drawn
          (λ t e. (e, at)))
        (λ t w1 h1.
          Ensures-bind (λ _ db. Entered before x t db) KeepsValid
            (sql ports (insert_transaction t) w1) _
            (Ensures-sql ports (λ _ db. Entered before x t db) (insert_transaction t) w1
              (λ r db i. entered opening_id balance t w1.db h h1.0 h1.1 i))
            (λ r w2 h2. credited t w2 h2))
    where
      credited :
          (t : WagerTransaction) (w2 : World)
          → Entered before x t w2.db
          → Ensures KeepsValid (
              (lift (zero_money x.balance.currency) >>= λ zero. new_id ports >>= λ entry_id.
              lift (new_ledger_entry entry_id t.id (opening_change x zero)) >>= λ entry.
              sql ports (insert_ledger entry)
              >> save_events ports (
                  (λ id. new_wager_transaction_processed id t meta)
                  ∷ (λ id. new_wallet_balance_changed id (opening_change x zero) t.id meta)
                  ∷ []))
                w2)
      credited t w2 h2 =
          Ensures-bind
            (λ zero db.
              (zero ≡ record { cents = pos 0; currency = x.balance.currency })
              × Entered before x t db)
            KeepsValid (lift (zero_money x.balance.currency) w2) _
            (Ensures-lift ports
              (λ zero db.
                (zero ≡ record { cents = pos 0; currency = x.balance.currency })
                × Entered before x t db)
              (zero_money x.balance.currency) w2
              (λ zero e. (zero_money-ok x.balance.currency e, h2)))
            (λ zero w3 h3.
              let change = opening_change x zero in
              let entry_id = ports.ids w3.drawn in
              let next = new_ledger_entry entry_id t.id change in
              let drawn = record w3 { drawn = w3.drawn + 1 } in
              Ensures-bind (λ e db. (next ≡ ok e) × Entered before x t db) KeepsValid
                (lift next drawn) _
                (Ensures-lift ports (λ e db. (next ≡ ok e) × Entered before x t db) next drawn
                  (λ e n. (n, h3.1)))
                (λ e w4 h4.
                  Ensures-bind KeepsValid KeepsValid (sql ports (insert_ledger e) w4) _
                    (Ensures-sql ports KeepsValid (insert_ledger e) w4
                      (λ r db i. posted entry_id balance t zero e w4.db h h4.1 h3.0 h4.0 i))
                    (λ r w5 v. save_events-Valid ports _ w5 v)))
