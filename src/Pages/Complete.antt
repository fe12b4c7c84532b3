-- ===== src/Pages/Complete.antt =====
-- The pages of a history, one after the other, are the history.
use distributed_wallet_api.Prelude.{
  ℕ, zero, suc, ◌≤◌, ◌≡◌, refl, sym, ap, ◌∙◌, subst, ltb_ℤ, false, inl, inr, Bool-cases, ==_iff,
  some, List, [], ◌∷◌, map, length, length-map, ℤ, pos, arith, Text, is_empty, Uuid, ok,
}
use distributed_wallet_api.Money.{numeral}
use distributed_wallet_api.Money.Digits.{numeral-IsNumeral}
use distributed_wallet_api.Wallet.{Wallet}
use distributed_wallet_api.Ledger.Chain.{Chain}
use distributed_wallet_api.Store.{Database, find_row, has_wallet_id}
use distributed_wallet_api.Store.Search.{All, All-find, find-holds}
use distributed_wallet_api.Store.RoundTrip.{scan_wallet_lem}
use distributed_wallet_api.Store.Invariant.{Valid, WalletOk, entries_of}
use distributed_wallet_api.Queries.{
  LedgerEntryRow, find_wallet, page_ledger, rows_after, rows_of_wallet, ledger_rows,
}
use distributed_wallet_api.Queries.History.{numbered, numbered-entries, scan_rows-Chain}
use distributed_wallet_api.Pages.{
  Codec, sequence_at, parse_limit, limit_of, encode_cursor, decode_cursor,
}
use distributed_wallet_api.Pages.Suffixes.{
  entries_after, entries_after-all, Numbering, numbered-Ascending, numbered-positive,
}
use distributed_wallet_api.Pages.Walk.{
  limit_positive, scan_rows-after, scan_rows-take, walk, walk_from,
}

-- What the standard library says of a text that it has encoded, and of the numeral of an int64.
pub record Lawful (codec : Codec) : Type 0 where
  pub decodes : (t : Text) → codec.base64_decode (codec.base64_encode t) ≡ some t
  pub full : (t : Text) → is_empty t ≡ false → is_empty (codec.base64_encode t) ≡ false
  pub parses : (n : ℕ) → n ≤ 9223372036854775807 → codec.parse_int64 (numeral n) ≡ some (pos n)

-- A number of an identity column.
abbrev pub Fits : List LedgerEntryRow → Type 0
Fits rows = All (λ r. r.sequence ≤ 9223372036854775807) rows

Fits-after : (n : ℤ) (rows : List LedgerEntryRow) → Fits rows → Fits (entries_after n rows)
Fits-after n [] h = tt
Fits-after n (r ∷ rows) h = elim (Bool-cases (ltb_ℤ n (pos r.sequence))) [
  | inl t ↦ rw t (h.0, Fits-after n rows h.1)
  | inr f ↦ rw f (Fits-after n rows h.1)
]

sequence_at-Fits :
    (k : ℕ) (rows : List LedgerEntryRow) → Fits rows → sequence_at k rows ≤ 9223372036854775807
sequence_at-Fits k [] h = omega arith
sequence_at-Fits zero (r ∷ rows) h = h.0
sequence_at-Fits (suc k) (r ∷ rows) h = sequence_at-Fits k rows h.1

is_empty-length : (t : Text) → 1 ≤ length t → is_empty t ≡ false
is_empty-length [] h = absurd (omega (arith, h))
is_empty-length (_ ∷ _) h = refl

decode_cursor-encode :
    (codec : Codec) (n : ℕ)
    → Lawful codec
    → n ≤ 9223372036854775807
    → decode_cursor codec (encode_cursor codec n) ≡ ok (pos n)
unfolding decode_cursor encode_cursor
decode_cursor-encode codec n lawful h =
    rw
      (
        lawful.full (numeral n) (is_empty-length (numeral n) (numeral-IsNumeral n).long),
        lawful.decodes (numeral n),
        lawful.parses n h,
      )
      refl

parse_limit-positive : (codec : Codec) (raw : Text) → (k : ℕ) × (parse_limit codec raw ≡ suc k)
unfolding parse_limit
parse_limit-positive codec raw =
    go (limit_of (codec.parse_int64 raw)) (limit_positive (codec.parse_int64 raw))
  where
    go : (l : ℕ) → 1 ≤ l → (k : ℕ) × (l ≡ suc k)
    go zero h = absurd (omega (arith, h))
    go (suc k) h = (k, refl)

module _ (codec : Codec) (lawful : Lawful codec) (seqs : ℕ → ℕ) (numbering : Numbering seqs) where
  -- On a valid database that does not change, following the cursors of the ledger pages of a stored
  -- wallet from the first page on, with any limit, comes to a last page after at most one page more
  -- than there are entries, and the pages one after the other are the history of the wallet: every
  -- entry once, in order. The numbers of the rows are positive, ascending and int64, and the
  -- encoding of cursors is undone by their decoding.
  pub walk_complete :
      (id : Uuid) (raw_limit : Text) (db : Database) {w : Wallet}
      → Valid db
      → find_row (has_wallet_id id) db.wallets ≡ some w
      → Fits (numbered seqs id 0 db.ledger)
      → walk codec seqs id raw_limit db (suc (length (entries_of id db.ledger))) []
        ≡ ok (entries_of id db.ledger)
  unfolding find_wallet page_ledger decode_cursor
  walk_complete id raw_limit db {w} v f fits =
      let rows = numbered seqs id 0 db.ledger in
      let h = All-find (WalletOk db.ledger) (has_wallet_id id) db.wallets v.wallets f in
      let named : w.id ≡ id = (==_iff w.id id).0 (find-holds (has_wallet_id id) db.wallets f) in
      let (k, limit) = parse_limit-positive codec raw_limit in
      let whole : entries_after (pos 0) rows ≡ rows =
        entries_after-all 0 rows (numbered-positive seqs numbering id db.ledger) in
      let history = numbered-entries seqs id 0 db.ledger in
      let count : length (entries_after (pos 0) rows) ≡ length (entries_of id db.ledger) =
        ap length whole
        ∙ sym (length-map (λ (r : LedgerEntryRow). r.entry) rows)
        ∙ ap length history in
      walk_from codec seqs id raw_limit db w rows (numbered-Ascending seqs numbering id 0 db.ledger)
        (rw (f, scan_wallet_lem w h.wallet h.iso) refl)
        (λ n limit. scan_rows-take limit (rows_after n (rows_of_wallet id (ledger_rows seqs db))) (
          scan_rows-after n (rows_of_wallet id (ledger_rows seqs db)) (
            scan_rows-Chain seqs id 0 w.balance.currency (pos 0) w.balance.cents db.ledger h.iso (
              subst (λ i. Chain w.balance.currency (pos 0) (entries_of i db.ledger) w.balance.cents)
                named h.history))))
        (λ j n short.
          decode_cursor-encode codec (sequence_at j (entries_after (pos n) rows)) lawful
            (sequence_at-Fits j (entries_after (pos n) rows) (Fits-after (pos n) rows fits)))
        k (suc (length (entries_of id db.ledger))) 0 [] limit refl (omega (arith, count))
      ∙ ap (λ l. ok (map (λ (r : LedgerEntryRow). r.entry) l)) whole
      ∙ ap ok history
