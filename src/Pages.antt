-- ===== src/Pages.antt =====
-- The pages of a wallet's history (`Ledger`, `parseLimit` and the cursors of
-- cmd/internal/infra/http/wallet-handler.go).
pub mod Suffixes
pub mod Walk
pub mod Complete
use distributed_wallet_api.Prelude.{
  ℕ, zero, suc, ◌+◌, ◌-◌, ltb, if◌then◌else◌, Option, none, some, List, [], ◌∷◌, map, take, length,
  ℤ, pos, negsuc, ltb_ℤ, Text, is_empty, Uuid, Result, ok, err, invalid_request, ◌>>=◌, ◌>>◌,
}
use distributed_wallet_api.Money.{numeral}
use distributed_wallet_api.Ledger.{WalletLedgerEntry}
use distributed_wallet_api.Store.{Database}
use distributed_wallet_api.Queries.{LedgerEntryRow, find_wallet, page_ledger}

-- `base64.RawURLEncoding`, and `strconv.ParseInt` and `strconv.Atoi` on an int64.
pub record Codec : Type 0 where
  pub base64_encode : Text → Text
  pub base64_decode : Text → Option Text
  pub parse_int64 : Text → Option ℤ

abbrev pub default_ledger_limit : ℕ
default_ledger_limit = 50

abbrev pub max_ledger_limit : ℕ
max_ledger_limit = 200

abbrev pub limit_of : Option ℤ → ℕ
limit_of none = default_ledger_limit
limit_of (some (negsuc _)) = default_ledger_limit
limit_of (some (pos zero)) = default_ledger_limit
limit_of (some (pos (suc n))) = if ltb max_ledger_limit (suc n) then max_ledger_limit else suc n

-- The answer: the entries, and the cursor of the next page unless this is the last one.
pub record LedgerPage : Type 0 where
  pub entries : List WalletLedgerEntry
  pub next_cursor : Option Text

-- `rows[n].Sequence`; the handler asks for it only where there are more than `n` rows.
abbrev pub sequence_at : ℕ → List LedgerEntryRow → ℕ
sequence_at n [] = 0
sequence_at zero (r ∷ rs) = r.sequence
sequence_at (suc n) (r ∷ rs) = sequence_at n rs

module _ (codec : Codec) where
  -- `parseLimit`
  unfoldable pub parse_limit : Text → ℕ
  parse_limit raw = limit_of (codec.parse_int64 raw)

  -- `encodeCursor`
  unfoldable pub encode_cursor : ℕ → Text
  encode_cursor sequence = codec.base64_encode (numeral sequence)

  abbrev parsed : Option ℤ → Result ℤ
  parsed none = err invalid_request
  parsed (some n) = ok n

  abbrev decoded : Option Text → Result ℤ
  decoded none = err invalid_request
  decoded (some t) = parsed (codec.parse_int64 t)

  -- `decodeCursor`
  unfoldable pub decode_cursor : Text → Result ℤ
  decode_cursor cursor =
      if is_empty cursor then ok (pos 0) else decoded (codec.base64_decode cursor)

  abbrev pub page_of : ℕ → List LedgerEntryRow → LedgerPage
  page_of limit rows =
      if ltb limit (length rows)
      then record {
        entries = map (λ r. r.entry) (take limit rows);
        next_cursor = some (encode_cursor (sequence_at (limit - 1) rows));
      }
      else record { entries = map (λ r. r.entry) rows; next_cursor = none }

  -- `Ledger`, on a parsed wallet identifier.
  unfoldable pub ledger_page : (ℕ → ℕ) → Uuid → Text → Text → Database → Result LedgerPage
  ledger_page seqs wallet_id cursor raw_limit db = do
    after ← decode_cursor cursor
    w ← find_wallet wallet_id db
    rows ← page_ledger seqs wallet_id after (parse_limit raw_limit + 1) db
    ok (page_of (parse_limit raw_limit) rows)
