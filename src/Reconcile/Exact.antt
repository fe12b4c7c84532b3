-- ===== src/Reconcile/Exact.antt =====
-- What a reconciliation reports, of any stored balance and of one that the invariant keeps.
use distributed_wallet_api.Prelude.{
  ℕ, ◌≡◌, refl, sym, ◌∙◌, subst, true, ==_iff, eqb_ℤ, some, List, [], ◌∷◌, arith, ℤ, pos, ◌-ℤ◌,
  -ℤ_parts, int_laws, ◌≤ℤ◌, length, Text, Uuid, ok,
}
use distributed_wallet_api.Money.{max_int64, is_valid_iso4217, subtract}
use distributed_wallet_api.Money.Arith.{subtract-checked}
use distributed_wallet_api.Wallet.{Wallet}
use distributed_wallet_api.Wallet.Movements.{IsWallet}
use distributed_wallet_api.Ledger.{WalletLedgerEntry}
use distributed_wallet_api.Ledger.Chain.{amount_of, Chain, replay_ledger_balance-Chain}
use distributed_wallet_api.Store.{Database, find_row, has_wallet_id}
use distributed_wallet_api.Store.Search.{All-find, find-holds}
use distributed_wallet_api.Store.RoundTrip.{scan_wallet_lem}
use distributed_wallet_api.Store.Invariant.{Valid, WalletOk, entries_of}
use distributed_wallet_api.Queries.{find_wallet, ledger_snapshot}
use distributed_wallet_api.Queries.History.{numbered-entries, scan_rows-Chain}
use distributed_wallet_api.Reconcile.{Reconciliation, reconcile}

Chain-bounds :
    (c : Text) (from to : ℤ) (es : List WalletLedgerEntry)
    → pos 0 ≤ℤ from
    → from ≤ℤ max_int64
    → Chain c from es to
    → (pos 0 ≤ℤ to) × (to ≤ℤ max_int64)
Chain-bounds c from to [] low high h = (rw (sym h) low, rw (sym h) high)
Chain-bounds c from to (e ∷ es) low high (p, h) =
    Chain-bounds c e.balance_after.cents to es p.not_negative p.bound h

-- The report on a stored balance and the balance where the history ends.
abbrev pub report : Uuid → Wallet → ℤ → ℕ → Reconciliation
report id w to entries = record {
  wallet_id = id;
  stored_balance = w.balance;
  calculated_balance = amount_of to w.balance.currency;
  difference = amount_of (w.balance.cents -ℤ to) w.balance.currency;
  consistent = eqb_ℤ (w.balance.cents -ℤ to) (pos 0);
  checked_entries = entries;
}

difference_fits :
    (w : Wallet) (to : ℤ)
    → IsWallet w
    → pos 0 ≤ℤ to
    → to ≤ℤ max_int64
    → subtract w.balance (amount_of to w.balance.currency)
      ≡ ok (amount_of (w.balance.cents -ℤ to) w.balance.currency)
difference_fits w to h low high =
    subtract-checked w.balance (amount_of to w.balance.currency) (record {
      left = h.money;
      right = record { initialized = h.money.initialized; in_range = (omega (arith, low), high) };
      same = refl;
    })
    ∙ ground (arith, -ℤ_parts w.balance.cents to, h.not_negative, h.money.in_range.1)

module _ (seqs : ℕ → ℕ) (id : Uuid) (db : Database) (w : Wallet) (to : ℤ)
    (found : find_row (has_wallet_id id) db.wallets ≡ some w) (wallet : IsWallet w)
    (iso : is_valid_iso4217 w.balance.currency ≡ true)
    (history : Chain w.balance.currency (pos 0) (entries_of id db.ledger) to) where
  snapshot : ledger_snapshot seqs id db ≡ ok (w.balance, entries_of id db.ledger)
  unfolding ledger_snapshot find_wallet
  snapshot =
      rw
        (
          found,
          scan_wallet_lem w wallet iso,
          scan_rows-Chain seqs id 0 w.balance.currency (pos 0) to db.ledger iso history,
          numbered-entries seqs id 0 db.ledger,
        )
        refl

  -- The reconciliation measures a divergence exactly: for a well-formed stored wallet in a currency
  -- of three capital letters, whose history leads from zero to a balance, the report has the stored
  -- balance, that balance, the exact integer by which they differ, and is consistent only if it is
  -- zero.
  pub reconcile_lem : reconcile seqs id db ≡ ok (report id w to (length (entries_of id db.ledger)))
  unfolding reconcile
  reconcile_lem =
      let (low, high) =
        Chain-bounds w.balance.currency (pos 0) to (entries_of id db.ledger) (omega arith)
          (omega arith) history in
      rw
        (
          snapshot,
          replay_ledger_balance-Chain w.balance.currency to (entries_of id db.ledger) iso history,
          difference_fits w to wallet low high,
        )
        refl

-- On a valid database, the reconciliation of a stored wallet succeeds and reports no divergence:
-- the balance rebuilt from the ledger rows is the stored one, the difference is zero, and every
-- entry of the wallet was checked.
pub reconcile-Valid :
    (seqs : ℕ → ℕ) (id : Uuid) (db : Database) {w : Wallet}
    → Valid db
    → find_row (has_wallet_id id) db.wallets ≡ some w
    → reconcile seqs id db
      ≡ ok (record {
        wallet_id = id;
        stored_balance = w.balance;
        calculated_balance = w.balance;
        difference = amount_of (pos 0) w.balance.currency;
        consistent = true;
        checked_entries = length (entries_of id db.ledger);
      })
reconcile-Valid seqs id db {w} v f =
    let h = All-find (WalletOk db.ledger) (has_wallet_id id) db.wallets v.wallets f in
    let named : w.id ≡ id = (==_iff w.id id).0 (find-holds (has_wallet_id id) db.wallets f) in
    let zero : w.balance.cents -ℤ w.balance.cents ≡ pos 0 = omega int_laws in
    reconcile_lem seqs id db w w.balance.cents f h.wallet h.iso (
      subst (λ i. Chain w.balance.currency (pos 0) (entries_of i db.ledger) w.balance.cents) named
        h.history)
    ∙ rw zero refl
