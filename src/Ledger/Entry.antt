-- ===== src/Ledger/Entry.antt =====
-- `WalletLedgerEntry` and its constructors.
use distributed_wallet_api.Prelude.{
  Bool, true, false, not, ◌||◌, Uuid, is_nil, Time, is_zero_time, Result, ok, ◌>>=◌, ◌>>◌, fail_if,
  invalid_ledger_entry_id, invalid_wallet_id, invalid_transaction_id, invalid_direction,
  invalid_ledger_amount, negative_ledger_balance, ledger_balance_mismatch, invalid_timestamp,
}
use distributed_wallet_api.Money.{Money, validate, add, subtract, equals, is_negative, is_positive}
use distributed_wallet_api.Wallet.{Direction, credit_direction, other, BalanceChange}

pub record WalletLedgerEntry : Type 0 where
  pub id : Uuid
  pub wallet_id : Uuid
  pub transaction_id : Uuid
  pub direction : Direction
  pub amount : Money
  pub balance_before : Money
  pub balance_after : Money
  pub created_at : Time

pub record RestoredLedgerEntryParams : Type 0 where
  pub id : Uuid
  pub wallet_id : Uuid
  pub transaction_id : Uuid
  pub direction : Direction
  pub amount : Money
  pub balance_before : Money
  pub balance_after : Money
  pub created_at : Time

abbrev pub is_known : Direction → Bool
is_known (other _) = false
is_known _ = true

-- balanceBefore ± amount
unfoldable pub expected_balance : Direction → Money → Money → Result Money
expected_balance credit_direction balance_before amount = add balance_before amount
expected_balance _ balance_before amount = subtract balance_before amount

unfoldable pub validate_ledger_arithmetic : RestoredLedgerEntryParams → Result (Unit {0})
unfolding expected_balance
validate_ledger_arithmetic p = do
  expected ← expected_balance p.direction p.balance_before p.amount
  equal ← equals expected p.balance_after
  fail_if (not equal) ledger_balance_mismatch

unfoldable pub build_ledger_entry : RestoredLedgerEntryParams → Result WalletLedgerEntry
unfolding validate_ledger_arithmetic
build_ledger_entry p = do
  fail_if (is_nil p.id) invalid_ledger_entry_id
  fail_if (is_nil p.wallet_id) invalid_wallet_id
  fail_if (is_nil p.transaction_id) invalid_transaction_id
  fail_if (not (is_known p.direction)) invalid_direction
  validate p.amount
  validate p.balance_before
  validate p.balance_after
  fail_if (not (is_positive p.amount)) invalid_ledger_amount
  fail_if (is_negative p.balance_before || is_negative p.balance_after) negative_ledger_balance
  validate_ledger_arithmetic p
  fail_if (is_zero_time p.created_at) invalid_timestamp
  ok (record {
    id = p.id;
    wallet_id = p.wallet_id;
    transaction_id = p.transaction_id;
    direction = p.direction;
    amount = p.amount;
    balance_before = p.balance_before;
    balance_after = p.balance_after;
    created_at = p.created_at;
  })

unfoldable pub new_ledger_entry : Uuid → Uuid → BalanceChange → Result WalletLedgerEntry
unfolding build_ledger_entry
new_ledger_entry id transaction_id change = build_ledger_entry (record {
  id = id;
  wallet_id = change.wallet_id;
  transaction_id = transaction_id;
  direction = change.direction;
  amount = change.amount;
  balance_before = change.balance_before;
  balance_after = change.balance_after;
  created_at = change.occurred_at;
})

unfoldable pub restore_ledger_entry : RestoredLedgerEntryParams → Result WalletLedgerEntry
unfolding build_ledger_entry
restore_ledger_entry p = build_ledger_entry p
