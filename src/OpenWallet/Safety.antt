-- ===== src/OpenWallet/Safety.antt =====
-- The invariant and `OpenWallet.Execute` of open-wallet.go.
use distributed_wallet_api.Prelude.{
  ◌≡◌, ◌≢◌, refl, sym, ◌∙◌, ap, subst, true, false, ◌==◌, ==_iff, List, [], ◌∷◌, ◌++◌, arith,
  Bool-cases, inl, inr, pos, +ℤ_parts, Uuid, ok,
}
use distributed_wallet_api.Money.{Money, IsInt64, is_valid_iso4217}
use distributed_wallet_api.Wallet.{Wallet}
use distributed_wallet_api.Wallet.Movements.{IsWallet}
use distributed_wallet_api.Transaction.{WagerTransaction, requires_reference}
use distributed_wallet_api.Ledger.{WalletLedgerEntry, new_ledger_entry, build_ledger_entry}
use distributed_wallet_api.Ledger.Chain.{new_ledger_entry-restored, Chain, Posted}
use distributed_wallet_api.Store.{
  Database, any_row, has_wallet_id, has_transaction_id, reverses, insert_wallet,
}
use distributed_wallet_api.Store.Search.{
  All-self, All, All-append, All-map, Distinct-append, count_rows-append, any_row-append,
}
use distributed_wallet_api.Store.Invariant.{
  Valid, WalletOk, TransactionOk, entries_of, wallet_key, transaction_key,
}
use distributed_wallet_api.OpenWallet.{opening_change}
use distributed_wallet_api.Store.Posting.{entries_of-append_own, WalletOk-other}

pub insert_wallet-inv :
    (w : Wallet) (db : Database) {r : Unit {0}} {db' : Database}
    → insert_wallet w db ≡ ok (r, db')
    → (is_valid_iso4217 w.balance.currency ≡ true)
      × (any_row (has_wallet_id w.id) db.wallets ≡ false)
      × (db' ≡ record db { wallets = db.wallets ++ w ∷ [] })
unfolding insert_wallet
insert_wallet-inv w db e = ground arith

-- No wallet, no history.
entries_of-none :
    (id : Uuid) (ws : List Wallet) (es : List WalletLedgerEntry)
    → any_row (has_wallet_id id) ws ≡ false
    → All (λ e. any_row (has_wallet_id e.wallet_id) ws ≡ true) es
    → entries_of id es ≡ []
entries_of-none id ws [] h a = refl
entries_of-none id ws (e ∷ es) h a = elim (Bool-cases (e.wallet_id == id)) [
  | inl t ↦ absurd (
      true_false
        (sym a.0 ∙ ap (λ k. any_row (has_wallet_id k) ws) ((==_iff e.wallet_id id).0 t) ∙ h))
  | inr f ↦ rw f (entries_of-none id ws es h a.1)
]
  where
    true_false : true ≢ false
    true_false x = cc

-- The wallet of an id that was free, with the movement from nothing to its balance.
module _ (db : Database) (w : Wallet) (valid : Valid db) (wallet : IsWallet w)
    (iso : is_valid_iso4217 w.balance.currency ≡ true)
    (free : any_row (has_wallet_id w.id) db.wallets ≡ false) where
  empty : entries_of w.id db.ledger ≡ []
  empty = entries_of-none w.id db.wallets db.ledger free valid.postings

  apart : (x : Wallet) → any_row (has_wallet_id x.id) db.wallets ≡ true → w.id ≢ x.id
  apart x here same =
      true_false (sym here ∙ ap (λ k. any_row (has_wallet_id k) db.wallets) (sym same) ∙ free)
    where
      true_false : true ≢ false
      true_false x = cc

  still_there :
      (es : List WalletLedgerEntry)
      → All (λ e. any_row (has_wallet_id e.wallet_id) db.wallets ≡ true) es
      → All (λ e. any_row (has_wallet_id e.wallet_id) (db.wallets ++ w ∷ []) ≡ true) es
  still_there es =
      All-map (λ e. any_row (has_wallet_id e.wallet_id) db.wallets ≡ true)
        (λ e. any_row (has_wallet_id e.wallet_id) (db.wallets ++ w ∷ []) ≡ true) es
        (λ e h. any_row-append (has_wallet_id e.wallet_id) db.wallets w ∙ rw h refl)

  pub opened_empty : w.balance.cents ≡ pos 0 → Valid (record db { wallets = db.wallets ++ w ∷ [] })
  opened_empty nothing = record {
    wallets =
        All-append (WalletOk db.ledger) db.wallets w valid.wallets
          (record { wallet = wallet; iso = iso; history = rw empty (sym nothing) });
    wallet_ids = Distinct-append wallet_key db.wallets w valid.wallet_ids free;
    transactions = valid.transactions;
    transaction_ids = valid.transaction_ids;
    reversals = valid.reversals;
    postings = still_there db.ledger valid.postings;
  }

  module _ (t : WagerTransaction) (e : WalletLedgerEntry) (good : TransactionOk t)
      (fresh : any_row (has_transaction_id t.id) db.transactions ≡ false)
      (reversing : requires_reference t.kind ≡ false) (own : e.wallet_id ≡ w.id)
      (whole : e.balance_after ≡ w.balance) (posted : Posted w.balance.currency (pos 0) e) where
    other_wallets :
        (ws : List Wallet)
        → All (λ x. any_row (has_wallet_id x.id) db.wallets ≡ true) ws
        → All (WalletOk db.ledger) ws
        → All (WalletOk (db.ledger ++ e ∷ [])) ws
    other_wallets [] h a = tt
    other_wallets (x ∷ ws) h a = (
      WalletOk-other db.ledger e x (λ same. apart x h.0 (sym own ∙ same)) a.0,
      other_wallets ws h.1 a.1,
    )

    pub opened_posted : Valid (record db {
      wallets = db.wallets ++ w ∷ [];
      transactions = db.transactions ++ t ∷ [];
      ledger = db.ledger ++ e ∷ [];
    })
    opened_posted = record {
      wallets =
          All-append (WalletOk (db.ledger ++ e ∷ [])) db.wallets w
            (other_wallets db.wallets (All-self wallet_key db.wallets) valid.wallets)
            (record {
              wallet = wallet;
              iso = iso;
              history =
                  subst (λ es. Chain w.balance.currency (pos 0) es w.balance.cents)
                    (sym
                      (entries_of-append_own w.id db.ledger e own ∙ ap (λ es. es ++ e ∷ []) empty))
                    (posted, ap (λ m. m.cents) whole);
            });
      wallet_ids = Distinct-append wallet_key db.wallets w valid.wallet_ids free;
      transactions = All-append TransactionOk db.transactions t valid.transactions good;
      transaction_ids =
          Distinct-append transaction_key db.transactions t valid.transaction_ids fresh;
      reversals = λ r n.
          rw (count_rows-append (reverses r) db.transactions t)
            (ground (arith, valid.reversals r n, reversing));
      postings =
          All-append (λ x. any_row (has_wallet_id x.wallet_id) (db.wallets ++ w ∷ []) ≡ true)
            db.ledger e (still_there db.ledger valid.postings)
            (any_row-append (has_wallet_id e.wallet_id) db.wallets w
              ∙ ground (arith, own, ==_iff w.id e.wallet_id));
    }

-- The entry of the opening credit.
pub opening_entry :
    (id transaction_id : Uuid) (w : Wallet) (zero : Money) {e : WalletLedgerEntry}
    → IsInt64 w.balance.cents
    → zero ≡ record { cents = pos 0; currency = w.balance.currency }
    → new_ledger_entry id transaction_id (opening_change w zero) ≡ ok e
    → (e.wallet_id ≡ w.id) × (e.balance_after ≡ w.balance) × Posted w.balance.currency (pos 0) e
unfolding new_ledger_entry build_ledger_entry
opening_entry id transaction_id w zero {e} fits z h = ground (
  arith,
  +ℤ_parts (pos 0) w.balance.cents,
  new_ledger_entry-restored id transaction_id (opening_change w zero) e h,
)
