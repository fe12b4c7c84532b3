-- ===== src/Pages/Suffixes.antt =====
-- What lies after a row of a history, and after the last row of a page.
use distributed_wallet_api.Prelude.{
  subst, sym, ℕ, zero, suc, ◌<◌, ◌≤◌, ◌≡◌, refl, ltb_ℤ, true, false, inl, inr, Bool-cases, ◌==◌,
  if◌then◌else◌, List, [], ◌∷◌, drop, length, ℤ, pos, arith, Uuid,
}
use distributed_wallet_api.Ledger.{WalletLedgerEntry}
use distributed_wallet_api.Store.Search.{All}
use distributed_wallet_api.Queries.{LedgerEntryRow}
use distributed_wallet_api.Queries.History.{numbered}
use distributed_wallet_api.Pages.{sequence_at}

-- The rows after a sequence number.
abbrev pub entries_after : ℤ → List LedgerEntryRow → List LedgerEntryRow
entries_after n [] = []
entries_after n (r ∷ rs) =
    if ltb_ℤ n (pos r.sequence) then r ∷ entries_after n rs else entries_after n rs

-- All rows come after the number.
abbrev pub Above : ℕ → List LedgerEntryRow → Type 0
Above n rs = All (λ r. n < r.sequence) rs

abbrev pub Ascending : List LedgerEntryRow → Type 0
Ascending [] = Unit
Ascending (r ∷ rs) = Above r.sequence rs × Ascending rs

Above-lower : (m n : ℕ) (rs : List LedgerEntryRow) → m ≤ n → Above n rs → Above m rs
Above-lower m n [] h a = tt
Above-lower m n (r ∷ rs) h a = (omega (arith, h, a.0), Above-lower m n rs h a.1)

-- Rows that all come after a number are the rows after it.
pub entries_after-all :
    (n : ℕ) (rs : List LedgerEntryRow) → Above n rs → entries_after (pos n) rs ≡ rs
entries_after-all n [] a = refl
entries_after-all n (r ∷ rs) a =
    let later : ltb_ℤ (pos n) (pos r.sequence) ≡ true = ground (arith, a.0) in
    rw (later, entries_after-all n rs a.1) refl

Above-after : (m : ℕ) (n : ℤ) (rs : List LedgerEntryRow) → Above m rs → Above m (entries_after n rs)
Above-after m n [] a = tt
Above-after m n (r ∷ rs) a = elim (Bool-cases (ltb_ℤ n (pos r.sequence))) [
  | inl t ↦ rw t (a.0, Above-after m n rs a.1)
  | inr f ↦ rw f (Above-after m n rs a.1)
]

sequence_at-Above :
    (n k : ℕ) (rs : List LedgerEntryRow) → Above n rs → k < length rs → n < sequence_at k rs
sequence_at-Above n k [] a h = absurd (omega (arith, h))
sequence_at-Above n zero (r ∷ rs) a h = a.0
sequence_at-Above n (suc k) (r ∷ rs) a h = sequence_at-Above n k rs a.1 (omega (arith, h))

-- After the k-th row of an ascending list lie the rows from the next one on.
after_row :
    (k : ℕ) (rs : List LedgerEntryRow)
    → Ascending rs
    → k < length rs
    → entries_after (pos (sequence_at k rs)) rs ≡ drop (suc k) rs
after_row k [] a h = absurd (omega (arith, h))
after_row zero (r ∷ rs) a h =
    let itself : ltb_ℤ (pos r.sequence) (pos r.sequence) ≡ false = ground arith in
    rw itself (entries_after-all r.sequence rs a.0)
after_row (suc k) (r ∷ rs) a h =
    let above = sequence_at-Above r.sequence k rs a.0 (omega (arith, h)) in
    let earlier : ltb_ℤ (pos (sequence_at k rs)) (pos r.sequence) ≡ false = ground (arith, above) in
    rw earlier (after_row k rs a.1 (omega (arith, h)))

-- The same of the rows after a number.
pub after_page :
    (n k : ℕ) (rs : List LedgerEntryRow)
    → Ascending rs
    → k < length (entries_after (pos n) rs)
    → entries_after (pos (sequence_at k (entries_after (pos n) rs))) rs
      ≡ drop (suc k) (entries_after (pos n) rs)
after_page n k [] a h = absurd (omega (arith, h))
after_page n k (r ∷ rs) a h = elim (Bool-cases (ltb_ℤ (pos n) (pos r.sequence))) [
  | inl t ↦
      let whole : entries_after (pos n) (r ∷ rs) ≡ r ∷ rs =
        entries_after-all n (r ∷ rs)
          (ground (arith, t), Above-lower n r.sequence rs (ground (arith, t)) a.0) in
      subst (λ X. entries_after (pos (sequence_at k X)) (r ∷ rs) ≡ drop (suc k) X) (sym whole)
        (after_row k (r ∷ rs) a (rw whole at h))
  | inr f ↦
      let shorter : k < length (entries_after (pos n) rs) = rw f at h in
      let s = sequence_at k (entries_after (pos n) rs) in
      let above : r.sequence < s =
        sequence_at-Above r.sequence k (entries_after (pos n) rs)
          (Above-after r.sequence (pos n) rs a.0) shorter in
      let earlier : ltb_ℤ (pos s) (pos r.sequence) ≡ false = ground (arith, above) in
      let whole : entries_after (pos n) (r ∷ rs) ≡ entries_after (pos n) rs = rw f refl in
      subst (λ X. entries_after (pos (sequence_at k X)) (r ∷ rs) ≡ drop (suc k) X) (sym whole)
        (rw earlier (after_page n k rs a.1 shorter))
]

-- The numbers of the rows grow from one to the next, from 1 on.
pub record Numbering (seqs : ℕ → ℕ) : Type 0 where
  pub positive : (n : ℕ) → 0 < seqs n
  pub grows : (m n : ℕ) → m < n → seqs m < seqs n

module _ (seqs : ℕ → ℕ) (numbering : Numbering seqs) (id : Uuid) where
  numbered-Above :
      (m n : ℕ) (es : List WalletLedgerEntry) → m < seqs n → Above m (numbered seqs id n es)
  numbered-Above m n [] h = tt
  numbered-Above m n (e ∷ es) h =
      let rest =
        numbered-Above m (suc n) es (omega (arith, h, numbering.grows n (suc n) (omega arith))) in
      elim (Bool-cases (e.wallet_id == id)) [ inl t ↦ rw t (h, rest) | inr f ↦ rw f rest ]

  pub numbered-Ascending : (n : ℕ) (es : List WalletLedgerEntry) → Ascending (numbered seqs id n es)
  numbered-Ascending n [] = tt
  numbered-Ascending n (e ∷ es) = elim (Bool-cases (e.wallet_id == id)) [
    | inl t ↦ rw t (
      numbered-Above (seqs n) (suc n) es (numbering.grows n (suc n) (omega arith)),
      numbered-Ascending (suc n) es,
    )
    | inr f ↦ rw f (numbered-Ascending (suc n) es)
  ]

  pub numbered-positive : (es : List WalletLedgerEntry) → Above 0 (numbered seqs id 0 es)
  numbered-positive es = numbered-Above 0 0 es (numbering.positive 0)
