-- ===== src/OpenWallet/Booked.antt =====
-- The rows that `recordOpening` of open-wallet.go appends.
use distributed_wallet_api.Prelude.{◌+◌, ◌≡◌, ap, List, [], ◌∷◌, ◌++◌, arith, pos, Uuid, ok}
use distributed_wallet_api.Money.{Money, zero_money, new_money}
use distributed_wallet_api.Wallet.{Wallet, credit_direction}
use distributed_wallet_api.Transaction.{
  WagerTransaction, opening, processed, new_opening_transaction,
}
use distributed_wallet_api.Ledger.{WalletLedgerEntry, new_ledger_entry, build_ledger_entry}
use distributed_wallet_api.Events.{
  Metadata, new_wager_transaction_processed, new_wallet_balance_changed,
}
use distributed_wallet_api.Store.{
  Database, Ports, World, new_id, lift, sql, ◌>>=◌, ◌>>◌, insert_transaction, insert_ledger,
  save_event,
}
use distributed_wallet_api.Store.Writes.{insert_transaction-inv}
use distributed_wallet_api.Store.Posting.{insert_ledger-inv}
use distributed_wallet_api.Store.Effects.{save_event-effect}
use distributed_wallet_api.Store.Triples.{
  Ensures, Ensures-bind, Ensures-weaken, Ensures-sql, Ensures-lift,
}
use distributed_wallet_api.Process.{Builder, save_events}
use distributed_wallet_api.OpenWallet.{opening_change, record_opening}

-- The wallets, the transactions and the ledger of a database.
pub record Rows (ws : List Wallet) (ts : List WagerTransaction) (es : List WalletLedgerEntry)
    (db : Database) : Type 0 where
  pub wallets : db.wallets ≡ ws
  pub transactions : db.transactions ≡ ts
  pub ledger : db.ledger ≡ es

-- The opening transaction of a wallet.
pub record IsOpening (x : Wallet) (t : WagerTransaction) : Type 0 where
  pub kind_same : t.kind ≡ opening
  pub state_same : t.state ≡ processed
  pub wallet : t.wallet_id ≡ x.id
  pub player : t.player_id ≡ x.player_id
  pub money_same : t.money ≡ x.balance
  pub result : t.result_balance ≡ x.balance

-- The ledger entry of an opening transaction: a credit from nothing to the whole balance.
pub record IsOpeningCredit (x : Wallet) (t : WagerTransaction) (e : WalletLedgerEntry)
    : Type 0 where
  pub wallet : e.wallet_id ≡ x.id
  pub transaction : e.transaction_id ≡ t.id
  pub direction_same : e.direction ≡ credit_direction
  pub amount_same : e.amount ≡ x.balance
  pub before : e.balance_before ≡ record { cents = pos 0; currency = x.balance.currency }
  pub after : e.balance_after ≡ x.balance

new_opening_transaction-IsOpening :
    (id : Uuid) (x : Wallet) {t : WagerTransaction}
    → new_opening_transaction id x.id x.player_id x.balance x.created_at ≡ ok t
    → IsOpening x t
unfolding new_opening_transaction
new_opening_transaction-IsOpening id x e = ground arith

zero_of :
    (x : Wallet) {zero : Money}
    → zero_money x.balance.currency ≡ ok zero
    → zero ≡ record { cents = pos 0; currency = x.balance.currency }
unfolding zero_money new_money
zero_of x e = ground arith

new_ledger_entry-IsOpeningCredit :
    (id : Uuid) (x : Wallet) (t : WagerTransaction) (zero : Money) {e : WalletLedgerEntry}
    → zero ≡ record { cents = pos 0; currency = x.balance.currency }
    → new_ledger_entry id t.id (opening_change x zero) ≡ ok e
    → IsOpeningCredit x t e
unfolding new_ledger_entry build_ledger_entry
new_ledger_entry-IsOpeningCredit id x t zero z h = ground arith

insert_transaction-Rows :
    (ws : List Wallet) (ts : List WagerTransaction) (es : List WalletLedgerEntry)
    (t : WagerTransaction) (db : Database) {r : Unit {0}} {db' : Database}
    → Rows ws ts es db
    → insert_transaction t db ≡ ok (r, db')
    → Rows ws (ts ++ t ∷ []) es db'
insert_transaction-Rows ws ts es t db h e = rw (insert_transaction-inv t db e).1 (record {
  wallets = h.wallets;
  transactions = ap (λ rows. rows ++ t ∷ []) h.transactions;
  ledger = h.ledger;
})

insert_ledger-Rows :
    (ws : List Wallet) (ts : List WagerTransaction) (es : List WalletLedgerEntry)
    (x : WalletLedgerEntry) (db : Database) {r : Unit {0}} {db' : Database}
    → Rows ws ts es db
    → insert_ledger x db ≡ ok (r, db')
    → Rows ws ts (es ++ x ∷ []) db'
insert_ledger-Rows ws ts es x db h e = rw (insert_ledger-inv x db e).1 (record {
  wallets = h.wallets;
  transactions = h.transactions;
  ledger = ap (λ rows. rows ++ x ∷ []) h.ledger;
})

module _ (ports : Ports) (ws : List Wallet) (ts : List WagerTransaction)
    (es : List WalletLedgerEntry) where
  save_events-Rows :
      (builders : List Builder) (w : World)
      → Rows ws ts es w.db
      → Ensures (λ _ db. Rows ws ts es db) (save_events ports builders w)
  unfolding save_events
  save_events-Rows [] w h = h
  save_events-Rows (build ∷ builders) w h =
      let drawn = record w { drawn = w.drawn + 1 } in
      Ensures-bind (λ _ db. Rows ws ts es db) (λ _ db. Rows ws ts es db)
        (lift (build (ports.ids w.drawn)) drawn) _
        (Ensures-lift ports (λ _ db. Rows ws ts es db) (build (ports.ids w.drawn)) drawn (λ e k. h))
        (λ e w' h'.
          Ensures-bind (λ _ db. Rows ws ts es db) (λ _ db. Rows ws ts es db)
            (sql ports (save_event e) w') _
            (Ensures-sql ports (λ _ db. Rows ws ts es db) (save_event e) w'
              (λ r db i. rw (save_event-effect e w'.db i) (record {
                wallets = h'.wallets;
                transactions = h'.transactions;
                ledger = h'.ledger;
              })))
            (λ r w'' h''. save_events-Rows builders w'' h''))

module _ (ports : Ports) (ws : List Wallet) (ts : List WagerTransaction)
    (es : List WalletLedgerEntry) where
  -- The opening transaction and its entry are appended.
  abbrev pub Credited : Wallet → Database → Type 0
  Credited x db =
      (t : WagerTransaction) × (e : WalletLedgerEntry) × IsOpening x t
      × IsOpeningCredit x t e
      × Rows ws (ts ++ t ∷ []) (es ++ e ∷ []) db

  -- What `recordOpening` ensures.
  pub record_opening-Credited :
      (x : Wallet) (meta : Metadata) (w : World)
      → Rows ws ts es w.db
      → Ensures (λ _ db. Credited x db) (record_opening ports x meta w)
  unfolding record_opening
  record_opening-Credited x meta w h =
      let next =
        new_opening_transaction (ports.ids w.drawn) x.id x.player_id x.balance x.created_at in
      let drawn = record w { drawn = w.drawn + 1 } in
      Ensures-bind (λ t db. IsOpening x t × Rows ws ts es db) (λ _ db. Credited x db)
        (lift next drawn) _
        (Ensures-lift ports (λ t db. IsOpening x t × Rows ws ts es db) next drawn
          (λ t e. (new_opening_transaction-IsOpening (ports.ids w.drawn) x e, h)))
        (λ t w1 h1.
          Ensures-bind (λ _ db. Rows ws (ts ++ t ∷ []) es db) (λ _ db. Credited x db)
            (sql ports (insert_transaction t) w1) _
            (Ensures-sql ports (λ _ db. Rows ws (ts ++ t ∷ []) es db) (insert_transaction t) w1
              (λ r db i. insert_transaction-Rows ws ts es t w1.db h1.1 i))
            (λ r w2 h2. posted t w2 h1.0 h2))
    where
      posted :
          (t : WagerTransaction) (w2 : World)
          → IsOpening x t
          → Rows ws (ts ++ t ∷ []) es w2.db
          → Ensures
              (λ _ db. Credited x db)
              ((lift (zero_money x.balance.currency) >>= λ zero. new_id ports >>= λ entry_id.
                  lift (new_ledger_entry entry_id t.id (opening_change x zero)) >>= λ entry.
                  sql ports (insert_ledger entry)
                  >> save_events ports (
                      (λ id. new_wager_transaction_processed id t meta)
                      ∷ (λ id. new_wallet_balance_changed id (opening_change x zero) t.id meta)
                      ∷ []))
                w2)
      posted t w2 o h2 =
          Ensures-bind
            (λ zero db. (zero_money x.balance.currency ≡ ok zero) × Rows ws (ts ++ t ∷ []) es db)
            (λ _ db. Credited x db) (lift (zero_money x.balance.currency) w2) _
            (Ensures-lift ports
              (λ zero db. (zero_money x.balance.currency ≡ ok zero) × Rows ws (ts ++ t ∷ []) es db)
              (zero_money x.balance.currency) w2 (λ zero e. (e, h2)))
            (λ zero w3 h3.
              let next = new_ledger_entry (ports.ids w3.drawn) t.id (opening_change x zero) in
              let drawn = record w3 { drawn = w3.drawn + 1 } in
              Ensures-bind (λ e db. IsOpeningCredit x t e × Rows ws (ts ++ t ∷ []) es db)
                (λ _ db. Credited x db) (lift next drawn) _
                (Ensures-lift ports (λ e db. IsOpeningCredit x t e × Rows ws (ts ++ t ∷ []) es db)
                  next drawn
                  (λ e n. (
                    new_ledger_entry-IsOpeningCredit (ports.ids w3.drawn) x t zero (zero_of x h3.0)
                        n,
                    h3.1,
                  )))
                (λ e w4 h4.
                  Ensures-bind (λ _ db. Rows ws (ts ++ t ∷ []) (es ++ e ∷ []) db)
                    (λ _ db. Credited x db) (sql ports (insert_ledger e) w4) _
                    (Ensures-sql ports (λ _ db. Rows ws (ts ++ t ∷ []) (es ++ e ∷ []) db)
                      (insert_ledger e) w4
                      (λ r db i. insert_ledger-Rows ws (ts ++ t ∷ []) es e w4.db h4.1 i))
                    (λ r w5 h5.
                      Ensures-weaken (λ _ db. Rows ws (ts ++ t ∷ []) (es ++ e ∷ []) db)
                        (λ _ db. Credited x db) _
                        (save_events-Rows ports ws (ts ++ t ∷ []) (es ++ e ∷ []) _ w5 h5)
                        (λ u db h6. (t, e, o, h4.0, h6)))))
