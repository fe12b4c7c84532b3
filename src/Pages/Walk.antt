-- ===== src/Pages/Walk.antt =====
-- Following the cursors from the first page on.
use distributed_wallet_api.Prelude.{
  ℕ, zero, suc, ◌+◌, ◌-◌, ◌<◌, ◌≤◌, ◌≡◌, refl, sym, ap, ◌∙◌, ltb, ltb_ℤ, true, false, inl, inr,
  Bool-cases, Option, none, some, List, [], ◌∷◌, ◌++◌, map, take, drop, take-drop, length, ℤ, pos,
  negsuc, arith, Text, Uuid, Result, ok, err, infrastructure, ◌>>=◌,
}
use distributed_wallet_api.Wallet.{Wallet}
use distributed_wallet_api.Ledger.{WalletLedgerEntry}
use distributed_wallet_api.Store.{Database}
use distributed_wallet_api.Queries.{
  LedgerRow, LedgerEntryRow, rows_after, scan_ledger_entry, scan_rows, find_wallet, page_ledger,
}
use distributed_wallet_api.Pages.{
  Codec, limit_of, sequence_at, parse_limit, encode_cursor, decode_cursor, ledger_page,
}
use distributed_wallet_api.Pages.Suffixes.{entries_after, after_page, Ascending}

scan_ledger_entry-sequence :
    (r : LedgerRow) {x : LedgerEntryRow} → scan_ledger_entry r ≡ ok x → x.sequence ≡ r.seq
unfolding scan_ledger_entry
scan_ledger_entry-sequence r e = ground arith

-- The rows of a table that is read without an error.
scan_rows-inv :
    (r : LedgerRow) (rs : List LedgerRow) {xs : List LedgerEntryRow}
    → scan_rows (r ∷ rs) ≡ ok xs
    → (x : LedgerEntryRow) × (ys : List LedgerEntryRow) × (scan_ledger_entry r ≡ ok x)
      × (scan_rows rs ≡ ok ys)
      × (xs ≡ x ∷ ys)
unfolding scan_rows
scan_rows-inv r rs {xs} e = go (scan_ledger_entry r) (scan_rows rs) refl refl e
  where
    go :
        (a : Result LedgerEntryRow) (b : Result (List LedgerEntryRow))
        → scan_ledger_entry r ≡ a
        → scan_rows rs ≡ b
        → (a >>= λ x. b >>= λ ys. ok (x ∷ ys)) ≡ ok xs
        → (x : LedgerEntryRow) × (ys : List LedgerEntryRow) × (scan_ledger_entry r ≡ ok x)
          × (scan_rows rs ≡ ok ys)
          × (xs ≡ x ∷ ys)
    go (ok x) (ok ys) h k e = (x, ys, h, k, ground arith)
    go (ok x) (err y) h k e = cc
    go (err y) b h k e = cc

pub scan_rows-after :
    (n : ℤ) (rs : List LedgerRow) {xs : List LedgerEntryRow}
    → scan_rows rs ≡ ok xs
    → scan_rows (rows_after n rs) ≡ ok (entries_after n xs)
unfolding scan_rows
scan_rows-after n [] e = ap (λ r. r >>= λ xs. ok (entries_after n xs)) e
scan_rows-after n (r ∷ rs) {xs} e =
    let (x, ys, one, rest, whole) = scan_rows-inv r rs {xs = xs} e in
    let same = scan_ledger_entry-sequence r one in
    elim (Bool-cases (ltb_ℤ n (pos r.seq))) [
      | inl t ↦ rw (whole, same, t, one, scan_rows-after n rs rest) refl
      | inr f ↦ rw (whole, same, f, scan_rows-after n rs rest) refl
    ]

pub scan_rows-take :
    (n : ℕ) (rs : List LedgerRow) {xs : List LedgerEntryRow}
    → scan_rows rs ≡ ok xs
    → scan_rows (take n rs) ≡ ok (take n xs)
unfolding scan_rows
scan_rows-take zero rs e = refl
scan_rows-take (suc n) [] e = ap (λ r. r >>= λ xs. ok (take (suc n) xs)) e
scan_rows-take (suc n) (r ∷ rs) {xs} e =
    let (x, ys, one, rest, whole) = scan_rows-inv r rs {xs = xs} e in
    rw (whole, one, scan_rows-take n rs rest) refl

module _ {A : Type 0} where
  take-next : (k : ℕ) (xs : List A) → take k (take (suc k) xs) ≡ take k xs
  take-next zero xs = refl
  take-next (suc k) [] = refl
  take-next (suc k) (x ∷ xs) = ap (λ ys. x ∷ ys) (take-next k xs)

  take-short : (k : ℕ) (xs : List A) → length xs ≤ k → take k xs ≡ xs
  take-short zero [] h = refl
  take-short zero (x ∷ xs) h = absurd (omega (arith, h))
  take-short (suc k) [] h = refl
  take-short (suc k) (x ∷ xs) h = ap (λ ys. x ∷ ys) (take-short k xs (omega (arith, h)))

  length-take_next : (k : ℕ) (xs : List A) → k < length xs → length (take (suc k) xs) ≡ suc k
  length-take_next k [] h = absurd (omega (arith, h))
  length-take_next zero (x ∷ xs) h = refl
  length-take_next (suc k) (x ∷ xs) h = omega (arith, length-take_next k xs (omega (arith, h)))

  length-drop : (k : ℕ) (xs : List A) → k ≤ length xs → length (drop k xs) + k ≡ length xs
  length-drop zero xs h = omega arith
  length-drop (suc k) [] h = absurd (omega (arith, h))
  length-drop (suc k) (x ∷ xs) h = omega (arith, length-drop k xs (omega (arith, h)))

map-append : {A B : Type 0} (f : A → B) (xs ys : List A) → map f (xs ++ ys) ≡ map f xs ++ map f ys
map-append f [] ys = refl
map-append f (x ∷ xs) ys = ap (λ zs. f x ∷ zs) (map-append f xs ys)

sequence_at-take :
    (k : ℕ) (rs : List LedgerEntryRow) → sequence_at k (take (suc (suc k)) rs) ≡ sequence_at k rs
sequence_at-take k [] = refl
sequence_at-take zero (r ∷ rs) = refl
sequence_at-take (suc k) (r ∷ rs) = sequence_at-take k rs

pub limit_positive : (o : Option ℤ) → 1 ≤ limit_of o
limit_positive none = omega arith
limit_positive (some (negsuc _)) = omega arith
limit_positive (some (pos zero)) = omega arith
limit_positive (some (pos (suc n))) = ground arith

-- Following the cursors, at most so many pages.
unfoldable pub walk :
    Codec → (ℕ → ℕ) → Uuid → Text → Database → ℕ → Text → Result (List WalletLedgerEntry)
walk codec seqs id raw_limit db zero cursor = err infrastructure
walk codec seqs id raw_limit db (suc pages) cursor =
    ledger_page codec seqs id cursor raw_limit db >>= λ page. elim page.next_cursor [
      | none ↦ ok page.entries
      | some next ↦ walk codec seqs id raw_limit db pages next >>= λ rest. ok (page.entries ++ rest)
    ]

module _ (codec : Codec) (seqs : ℕ → ℕ) (id : Uuid) (raw_limit : Text) (db : Database) (w : Wallet)
    (rows : List LedgerEntryRow) (ascending : Ascending rows) (found : find_wallet id db ≡ ok w)
    (read : (n : ℤ) (limit : ℕ)
      → page_ledger seqs id n limit db ≡ ok (take limit (entries_after n rows)))
    (cursors : (k n : ℕ)
      → k < length (entries_after (pos n) rows)
      → decode_cursor codec (encode_cursor codec (sequence_at k (entries_after (pos n) rows)))
        ≡ ok (pos (sequence_at k (entries_after (pos n) rows)))) where
  page_full :
      (n k : ℕ) (cursor : Text)
      → decode_cursor codec cursor ≡ ok (pos n)
      → parse_limit codec raw_limit ≡ suc k
      → suc k < length (entries_after (pos n) rows)
      → ledger_page codec seqs id cursor raw_limit db
        ≡ ok (record {
          entries = map (λ r. r.entry) (take (suc k) (entries_after (pos n) rows));
          next_cursor = some (encode_cursor codec (sequence_at k (entries_after (pos n) rows)));
        })
  unfolding ledger_page
  page_full n k cursor d at more =
      let X = entries_after (pos n) rows in
      let two : suc k + 1 ≡ suc (suc k) = omega arith in
      let one : suc k - 1 ≡ k = omega arith in
      let longer : ltb (suc k) (length (take (suc (suc k)) X)) ≡ true =
        ground (arith, length-take_next (suc k) X more) in
      rw
        (
          d,
          found,
          at,
          read (pos n) (suc k + 1),
          two,
          longer,
          one,
          take-next (suc k) X,
          sequence_at-take k X,
        )
        refl

  page_last :
      (n k : ℕ) (cursor : Text)
      → decode_cursor codec cursor ≡ ok (pos n)
      → parse_limit codec raw_limit ≡ suc k
      → length (entries_after (pos n) rows) ≤ suc k
      → ledger_page codec seqs id cursor raw_limit db
        ≡ ok (record {
          entries = map (λ r. r.entry) (entries_after (pos n) rows);
          next_cursor = none;
        })
  unfolding ledger_page
  page_last n k cursor d at last =
      let X = entries_after (pos n) rows in
      let whole : take (suc k + 1) X ≡ X = take-short (suc k + 1) X (omega (arith, last)) in
      let shorter : ltb (suc k) (length X) ≡ false = ground (arith, last) in
      rw (d, found, at, read (pos n) (suc k + 1), whole, shorter) refl

  pub walk_from :
      (k pages n : ℕ) (cursor : Text)
      → parse_limit codec raw_limit ≡ suc k
      → decode_cursor codec cursor ≡ ok (pos n)
      → length (entries_after (pos n) rows) < pages
      → walk codec seqs id raw_limit db pages cursor
        ≡ ok (map (λ r. r.entry) (entries_after (pos n) rows))
  unfolding walk
  walk_from k zero n cursor at d h = absurd (omega (arith, h))
  walk_from k (suc pages) n cursor at d h =
      let X = entries_after (pos n) rows in
      elim (Bool-cases (ltb (suc k) (length X))) [
        | inl t ↦
            let more : suc k < length X = ground (arith, t) in
            let s = sequence_at k X in
            let onward : entries_after (pos s) rows ≡ drop (suc k) X =
              after_page n k rows ascending (omega (arith, more)) in
            let shorter : length (entries_after (pos s) rows) < pages =
              rw onward (omega (arith, h, more, length-drop (suc k) X (omega (arith, more)))) in
            rw
              (
                page_full n k cursor d at more,
                walk_from k pages s (encode_cursor codec s) at (cursors k n (omega (arith, more)))
                    shorter,
                onward,
              )
              (ap ok (
                sym (map-append (λ (r : LedgerEntryRow). r.entry) (take (suc k) X) (drop (suc k) X))
                ∙ ap (map (λ (r : LedgerEntryRow). r.entry)) (take-drop (suc k) X)))
        | inr f ↦ rw (page_last n k cursor d at (ground (arith, f))) refl
      ]
