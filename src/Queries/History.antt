-- ===== src/Queries/History.antt =====
-- The history of a wallet as the reads return it, beside the entries that were written.
use distributed_wallet_api.Prelude.{
  ℕ, suc, ◌≡◌, refl, true, ◌==◌, if◌then◌else◌, inl, inr, Bool-cases, List, [], ◌∷◌, map, ap, ◌∙◌,
  ℤ, Text, Uuid, ok,
}
use distributed_wallet_api.Money.{Money, new_money, is_valid_iso4217}
use distributed_wallet_api.Ledger.{WalletLedgerEntry}
use distributed_wallet_api.Ledger.Chain.{amount_of, shifted, Posted, Chain}
use distributed_wallet_api.Store.RoundTrip.{new_money_iso}
use distributed_wallet_api.Store.Invariant.{entries_of}
use distributed_wallet_api.Queries.Repository.{
  LedgerEntryRow, ledger_row_of, rows_from, rows_of_wallet, scan_ledger_entry, scan_rows,
}

-- The entries of a wallet beside their sequence numbers.
abbrev pub numbered : (ℕ → ℕ) → Uuid → ℕ → List WalletLedgerEntry → List LedgerEntryRow
numbered seqs id n [] = []
numbered seqs id n (e ∷ es) =
    if e.wallet_id == id
    then record { sequence = seqs n; entry = e } ∷ numbered seqs id (suc n) es
    else numbered seqs id (suc n) es

pub numbered-entries :
    (seqs : ℕ → ℕ) (id : Uuid) (n : ℕ) (es : List WalletLedgerEntry)
    → map (λ r. r.entry) (numbered seqs id n es) ≡ entries_of id es
numbered-entries seqs id n [] = refl
numbered-entries seqs id n (e ∷ es) = elim (Bool-cases (e.wallet_id == id)) [
  | inl t ↦ rw (t, numbered-entries seqs id (suc n) es) refl
  | inr f ↦ rw (f, numbered-entries seqs id (suc n) es) refl
]

new_money_same :
    (m : Money) (c : Text) → m.currency ≡ c → is_valid_iso4217 c ≡ true → new_money m.cents c ≡ ok m
new_money_same m c same iso = new_money_iso m.cents c iso ∙ rw same refl

-- An entry of a history reads back from its row.
pub scan_ledger_entry-Posted :
    (seq : ℕ) (c : Text) (from : ℤ) (e : WalletLedgerEntry)
    → is_valid_iso4217 c ≡ true
    → Posted c from e
    → scan_ledger_entry (ledger_row_of seq e) ≡ ok (record { sequence = seq; entry = e })
unfolding scan_ledger_entry
scan_ledger_entry-Posted seq c from e iso p =
    let read_balance = λ (m : Money) (x : ℤ) (same : m ≡ amount_of x c).
      new_money_same m e.amount.currency (rw (ap (λ b. b.currency) same, p.currency_same) refl)
        (rw p.currency_same iso) in
    rw
      (
        new_money_same e.amount e.amount.currency refl (rw p.currency_same iso),
        read_balance e.balance_before from p.before,
        read_balance e.balance_after (shifted e.direction from e.amount.cents) p.after,
        p.restored,
      )
      refl

-- The rows of a wallet whose history is a chain read back as the entries that were written.
pub scan_rows-Chain :
    (seqs : ℕ → ℕ) (id : Uuid) (n : ℕ) (c : Text) (from to : ℤ) (es : List WalletLedgerEntry)
    → is_valid_iso4217 c ≡ true
    → Chain c from (entries_of id es) to
    → scan_rows (rows_of_wallet id (rows_from seqs n es)) ≡ ok (numbered seqs id n es)
unfolding scan_rows
scan_rows-Chain seqs id n c from to [] iso h = refl
scan_rows-Chain seqs id n c from to (e ∷ es) iso h = elim (Bool-cases (e.wallet_id == id)) [
  | inl t ↦
      let (p, rest) = rw t at h in
      rw
        (
          t,
          scan_ledger_entry-Posted (seqs n) c from e iso p,
          scan_rows-Chain seqs id (suc n) c e.balance_after.cents to es iso rest,
        )
        refl
  | inr f ↦ rw (f, scan_rows-Chain seqs id (suc n) c from to es iso (rw f at h)) refl
]
