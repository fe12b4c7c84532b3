-- ===== src/Ledger/Replay.antt =====
-- `SignedAmount` and `ReplayLedgerBalance`.
use distributed_wallet_api.Prelude.{
  Option, none, some, List, [], ◌∷◌, Text, Result, ok, err, ◌>>=◌, invalid_direction,
  nil_ledger_entry,
}
use distributed_wallet_api.Money.{Money, zero_money, add, negate}
use distributed_wallet_api.Wallet.{Direction, debit_direction, credit_direction, other}
use distributed_wallet_api.Ledger.Entry.{WalletLedgerEntry}

abbrev pub signed : Direction → Money → Result Money
signed credit_direction amount = ok amount
signed debit_direction amount = negate amount
signed (other _) amount = err invalid_direction

unfoldable pub signed_amount : WalletLedgerEntry → Result Money
signed_amount e = signed e.direction e.amount

-- The loop over the entries; `none` is a nil pointer.
unfoldable pub replay_from : Money → List (Option WalletLedgerEntry) → Result Money
unfolding signed_amount
replay_from balance [] = ok balance
replay_from balance (none ∷ entries) = err nil_ledger_entry
replay_from balance (some e ∷ entries) =
    signed_amount e >>= λ s. add balance s >>= λ b. replay_from b entries

unfoldable pub replay_ledger_balance : Text → List (Option WalletLedgerEntry) → Result Money
unfolding replay_from
replay_ledger_balance currency entries = zero_money currency >>= λ zero. replay_from zero entries
