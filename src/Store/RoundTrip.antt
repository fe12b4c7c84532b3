-- ===== src/Store/RoundTrip.antt =====
-- Writing a row and reading it back (scanTransaction, scanWallet), for instants in whole
-- microseconds, as the column type keeps them.
use distributed_wallet_api.Prelude.{
  ◌≡◌, refl, inl, inr, [], ◌∷◌, true, arith, ok, Text, text_eq_iff, is_empty, Uuid, Bool-cases, ℤ,
  sym, ap,
}
use distributed_wallet_api.Money.{new_money, is_valid_iso4217}
use distributed_wallet_api.Wallet.{Wallet}
use distributed_wallet_api.Wallet.Movements.{IsWallet, restore_wallet-IsWallet}
use distributed_wallet_api.Transaction.{WagerTransaction, FailureCode, other_code, check_result}
use distributed_wallet_api.Transaction.Invariant.{IsTransaction, IsTransaction-IsStorable}
use distributed_wallet_api.Store.Rows.{
  row_of, scan_transaction, wallet_row_of, scan_wallet, nullable_text, nullable_uuid, nullable_code,
  nullable_cents, text_of, uuid_of, code_of, scan_balance,
}

text_of-nullable : (t : Text) → text_of (nullable_text t) ≡ t
text_of-nullable [] = refl
text_of-nullable (_ ∷ _) = refl

uuid_of-nullable : (u : Uuid) → uuid_of (nullable_uuid u) ≡ u
uuid_of-nullable u = ground arith

code_of-nullable : (c : FailureCode) → code_of (nullable_code c) ≡ c
code_of-nullable (other_code []) = refl
code_of-nullable (other_code (_ ∷ _)) = refl
code_of-nullable _ = refl

pub new_money_iso :
    (cents : ℤ) (c : Text)
    → is_valid_iso4217 c ≡ true
    → new_money cents c ≡ ok (record { cents = cents; currency = c })
unfolding new_money
new_money_iso cents c iso = rw iso

-- A well-formed wallet in a currency of three capital letters, with instants in whole microseconds,
-- reads back from its row as it was written.
pub scan_wallet_lem :
    (w : Wallet)
    → IsWallet w
    → is_valid_iso4217 w.balance.currency ≡ true
    → scan_wallet (wallet_row_of w) ≡ ok w
unfolding scan_wallet new_money
scan_wallet_lem w h iso = rw iso (restore_wallet-IsWallet w h)

-- The result balance shares the currency of the amount, and is the zero value if there is none.
scan_balance-result :
    (t : WagerTransaction)
    → IsTransaction t
    → is_valid_iso4217 t.money.currency ≡ true
    → scan_balance (nullable_cents t.result_balance) t.money.currency ≡ ok t.result_balance
unfolding check_result new_money
scan_balance-result t h iso = elim (Bool-cases (is_empty t.result_balance.currency)) [
  | inl absent ↦ rw absent (ap ok (sym (h.clean absent)))
  | inr present ↦
      rw (present, iso) (ground (arith, text_eq_iff t.result_balance.currency t.money.currency))
]

-- A well-formed transaction in a currency of three capital letters reads back from its row as it
-- was written: NULL and the zero value of each optional column stand for one another.
pub scan_transaction_lem :
    (t : WagerTransaction)
    → IsTransaction t
    → is_valid_iso4217 t.money.currency ≡ true
    → scan_transaction (row_of t) ≡ ok t
unfolding scan_transaction row_of
scan_transaction_lem t h iso = rw (scan_balance-result t h iso) (
    rw
      (
        text_of-nullable t.provider_id,
        text_of-nullable t.external_transaction_id,
        text_of-nullable t.idempotency_key,
        text_of-nullable t.payload_hash,
        text_of-nullable t.round_id,
        text_of-nullable t.game_id,
        text_of-nullable t.reference_external_id,
        uuid_of-nullable t.reference_transaction_id,
        code_of-nullable t.failure_code,
      )
      (rw (new_money_iso t.money.cents t.money.currency iso) (IsTransaction-IsStorable t h)))
