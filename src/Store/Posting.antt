-- ===== src/Store/Posting.antt =====
-- The invariant and the two statements of a movement, on the balance and on the ledger
-- (wallet-repository.go, ledger-repository.go).
use distributed_wallet_api.Prelude.{
  some_eq, ◌≡◌, ◌≢◌, refl, sym, ◌∙◌, subst, Bool, true, ◌&&◌, ◌==◌, ==_iff, none, some, List, [],
  ◌∷◌, ◌++◌, arith, Option-cases, inl, inr, ℤ, pos, ◌≤ℤ◌, ◌<ℤ◌, eqb_ℤ, Uuid, Time, ok,
}
use distributed_wallet_api.Money.{max_int64}
use distributed_wallet_api.Wallet.{Wallet}
use distributed_wallet_api.Wallet.Movements.{moved, moved-IsWallet}
use distributed_wallet_api.Ledger.{WalletLedgerEntry}
use distributed_wallet_api.Ledger.Chain.{Chain, Posted, Chain-append}
use distributed_wallet_api.Store.Tables.{Database, find_row, any_row, update_rows, has_wallet_id}
use distributed_wallet_api.Store.Repositories.{
  update_balance, write_balance, with_balance, at_version, insert_ledger, is_ledger_wallet,
}
use distributed_wallet_api.Store.Search.{
  All-find, All-append, All-map, find-holds, find_self, Distinct-update, any_row-update, update-All,
}
use distributed_wallet_api.Store.Invariant.{Valid, WalletOk, wallet_key, entries_of}

write_balance-none :
    (w : Wallet) (version : ℤ) (db : Database) {r : Unit {0}} {db' : Database}
    → write_balance w version none db ≢ ok (r, db')
write_balance-none w version db e = cc

write_balance-inv :
    (w : Wallet) (version : ℤ) (old : Wallet) (db : Database) {r : Unit {0}} {db' : Database}
    → write_balance w version (some old) db ≡ ok (r, db')
    → (pos 1 ≤ℤ w.version)
      × (db' ≡ record db {
        wallets = update_rows (at_version w.id version) (with_balance w) db.wallets;
      })
write_balance-inv w version old db e = ground arith

pub update_balance-inv :
    (w : Wallet) (version : ℤ) (db : Database) {r : Unit {0}} {db' : Database}
    → update_balance w version db ≡ ok (r, db')
    → (old : Wallet) × (find_row (at_version w.id version) db.wallets ≡ some old)
      × (pos 1 ≤ℤ w.version)
      × (db' ≡ record db {
        wallets = update_rows (at_version w.id version) (with_balance w) db.wallets;
      })
unfolding update_balance
update_balance-inv w version db e =
    elim (Option-cases (find_row (at_version w.id version) db.wallets)) [
      | inl f ↦ absurd (write_balance-none w version db (rw f at e))
      | inr (old, f) ↦
          let (low, after) = write_balance-inv w version old db (rw f at e) in (old, f, low, after)
    ]

pub insert_ledger-inv :
    (e : WalletLedgerEntry) (db : Database) {r : Unit {0}} {db' : Database}
    → insert_ledger e db ≡ ok (r, db')
    → (any_row (is_ledger_wallet e) db.wallets ≡ true)
      × (db' ≡ record db { ledger = db.ledger ++ e ∷ [] })
unfolding insert_ledger
insert_ledger-inv e db h = ground arith

pub entries_of-append_own :
    (id : Uuid) (es : List WalletLedgerEntry) (e : WalletLedgerEntry)
    → e.wallet_id ≡ id
    → entries_of id (es ++ e ∷ []) ≡ entries_of id es ++ e ∷ []
entries_of-append_own id [] e h = ground (arith, ==_iff e.wallet_id id)
entries_of-append_own id (x ∷ es) e h = ground (arith, entries_of-append_own id es e h)

entries_of-append_other :
    (id : Uuid) (es : List WalletLedgerEntry) (e : WalletLedgerEntry)
    → e.wallet_id ≢ id
    → entries_of id (es ++ e ∷ []) ≡ entries_of id es
entries_of-append_other id [] e h = ground (arith, ==_iff e.wallet_id id)
entries_of-append_other id (x ∷ es) e h = ground (arith, entries_of-append_other id es e h)

-- An entry of another wallet changes nothing for this one.
pub WalletOk-other :
    (ledger : List WalletLedgerEntry) (e : WalletLedgerEntry) (x : Wallet)
    → e.wallet_id ≢ x.id
    → WalletOk ledger x
    → WalletOk (ledger ++ e ∷ []) x
WalletOk-other ledger e x apart h = record {
  wallet = h.wallet;
  iso = h.iso;
  history =
      subst (λ es. Chain x.balance.currency (pos 0) es x.balance.cents)
        (sym (entries_of-append_other x.id ledger e apart)) h.history;
}

-- The entry that continues the history of a wallet leads to the balance after it.
pub WalletOk-moved :
    (ledger : List WalletLedgerEntry) (e : WalletLedgerEntry) (w : Wallet) (now : Time)
    → e.wallet_id ≡ w.id
    → w.version <ℤ max_int64
    → pos 0 ≤ℤ e.balance_after.cents
    → e.balance_after.cents ≤ℤ max_int64
    → Posted w.balance.currency w.balance.cents e
    → WalletOk ledger w
    → WalletOk (ledger ++ e ∷ []) (moved w e.balance_after.cents now)
WalletOk-moved ledger e w now own room low high p h = record {
  wallet = moved-IsWallet w e.balance_after.cents now h.wallet room low high;
  iso = h.iso;
  history =
      subst (λ es. Chain w.balance.currency (pos 0) es e.balance_after.cents)
        (sym (entries_of-append_own w.id ledger e own))
        (Chain-append w.balance.currency (pos 0) w.balance.cents (entries_of w.id ledger) e
          h.history p);
}

and_left : (a b : Bool) → (a && b) ≡ true → a ≡ true
and_left a b h = ground arith

-- The row that is updated is the row that is locked.
same_row :
    (id : Uuid) (version : ℤ) (db : Database) (w : Wallet) {old : Wallet}
    → Valid db
    → find_row (has_wallet_id id) db.wallets ≡ some w
    → find_row (at_version id version) db.wallets ≡ some old
    → old ≡ w
same_row id version db w {old} v f g =
    let self = find_self wallet_key (at_version id version) db.wallets v.wallet_ids g in
    let named = (==_iff old.id id).0 (
      and_left (old.id == id) (eqb_ℤ old.version version)
        (find-holds (at_version id version) db.wallets g)) in
    some_eq (sym self ∙ subst (λ n. find_row (has_wallet_id n) db.wallets ≡ some w) (sym named) f)

is_ledger_wallet-wallet :
    (e : WalletLedgerEntry) (ws : List Wallet)
    → any_row (is_ledger_wallet e) ws ≡ true
    → any_row (has_wallet_id e.wallet_id) ws ≡ true
is_ledger_wallet-wallet e [] h = h
is_ledger_wallet-wallet e (x ∷ ws) h = ground (arith, is_ledger_wallet-wallet e ws)

module _ (db : Database) (w : Wallet) (e : WalletLedgerEntry) (version : ℤ) (now : Time)
    (valid : Valid db) (found : find_row (has_wallet_id w.id) db.wallets ≡ some w)
    (room : w.version <ℤ max_int64) (own : e.wallet_id ≡ w.id)
    (low : pos 0 ≤ℤ e.balance_after.cents) (high : e.balance_after.cents ≤ℤ max_int64)
    (posted : Posted w.balance.currency w.balance.cents e) where
  abbrev after : Wallet
  after = moved w e.balance_after.cents now

  abbrev updated : Database
  updated = record db {
    wallets = update_rows (at_version w.id version) (with_balance after) db.wallets;
  }

  posted-Valid :
      {old : Wallet}
      → find_row (at_version w.id version) db.wallets ≡ some old
      → any_row (is_ledger_wallet e) updated.wallets ≡ true
      → Valid (record updated { ledger = db.ledger ++ e ∷ [] })
  posted-Valid {old} g owned =
      let row = same_row w.id version db w valid found g in
      let stored =
        All-find (WalletOk db.ledger) (has_wallet_id w.id) db.wallets valid.wallets found in
      record {
        wallets =
            update-All wallet_key (at_version w.id version) (with_balance after) w.id
              (λ x h. (==_iff x.id w.id).0 (and_left (x.id == w.id) (eqb_ℤ x.version version) h))
              (WalletOk db.ledger) (WalletOk (db.ledger ++ e ∷ []))
              (λ x apart. WalletOk-other db.ledger e x (λ same. apart (sym same ∙ own))) db.wallets
              valid.wallet_ids g valid.wallets
              (subst (λ x. WalletOk (db.ledger ++ e ∷ []) (with_balance after x)) (sym row)
                (WalletOk-moved db.ledger e w now own room low high posted stored));
        wallet_ids =
            Distinct-update wallet_key (at_version w.id version) (with_balance after) db.wallets
              (λ x. refl) valid.wallet_ids;
        transactions = valid.transactions;
        transaction_ids = valid.transaction_ids;
        reversals = valid.reversals;
        postings =
            All-append (λ x. any_row (has_wallet_id x.wallet_id) updated.wallets ≡ true) db.ledger e
              (All-map (λ x. any_row (has_wallet_id x.wallet_id) db.wallets ≡ true)
                (λ x. any_row (has_wallet_id x.wallet_id) updated.wallets ≡ true) db.ledger
                (λ x h.
                  any_row-update wallet_key (at_version w.id version) (with_balance after)
                    x.wallet_id db.wallets (λ y. refl)
                  ∙ h)
                valid.postings)
              (is_ledger_wallet-wallet e updated.wallets owned);
      }

  -- The balance and its ledger entry, written one after the other, lead to a valid database.
  pub posting-Valid :
      {r r' : Unit {0}} {db' db'' : Database}
      → update_balance after version db ≡ ok (r, db')
      → insert_ledger e db' ≡ ok (r', db'')
      → Valid db'' × (db''.transactions ≡ db.transactions)
  posting-Valid {r} {r'} {db'} {db''} u i =
      let (old, g, one, there) = update_balance-inv after version db u in
      let (owned, end) = insert_ledger-inv e db' i in
      rw (end, there)
        (
          posted-Valid g (subst (λ d. any_row (is_ledger_wallet e) d.wallets ≡ true) there owned),
          refl,
        )
