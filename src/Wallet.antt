-- ===== src/Wallet.antt =====
-- The wallet aggregate (cmd/internal/domain/wallet.go). A method that mutates the wallet returns
-- the wallet after the call beside its result.
pub mod Movements
use distributed_wallet_api.Prelude.{
  Bool, true, false, ◌&&◌, ◌||◌, if◌then◌else◌, ℤ, pos, negsuc, ◌+ℤ◌, ltb_ℤ, Uuid, is_nil, Time,
  is_zero_time, before, Text, Result, ok, err, Error, ◌>>=◌, ◌>>◌, fail_if, insufficient_funds,
  invalid_debit, invalid_credit, invalid_wallet_id, invalid_player_id, invalid_timestamp,
  negative_initial_balance, invalid_wallet_state,
}
use distributed_wallet_api.Money.{
  Money, wrap64, validate, add, subtract, compare_money, is_zero, is_negative,
}

-- `other` is any text that is neither "DEBIT" nor "CREDIT".
pub data Direction : Type 0 where
  debit_direction credit_direction : Direction
  other : Text → Direction

pub record BalanceChange : Type 0 where
  pub wallet_id : Uuid
  pub direction : Direction
  pub amount : Money
  pub balance_before : Money
  pub balance_after : Money
  pub wallet_version : ℤ  -- int64
  pub occurred_at : Time

pub record Wallet : Type 0 where
  pub id : Uuid
  pub player_id : Uuid
  pub balance : Money
  pub version : ℤ  -- int64
  pub created_at : Time
  pub updated_at : Time

abbrev pub initial_version : ℤ
initial_version = pos 1

unfoldable pub validate_identity : Uuid → Uuid → Result (Unit {0})
validate_identity id player_id = do
  fail_if (is_nil id) invalid_wallet_id
  fail_if (is_nil player_id) invalid_player_id

unfoldable pub new_wallet : Uuid → Uuid → Money → Time → Result Wallet
unfolding validate_identity
new_wallet id player_id initial_balance now = do
  validate_identity id player_id
  validate initial_balance
  fail_if (is_negative initial_balance) negative_initial_balance
  fail_if (is_zero_time now) invalid_timestamp
  ok (record {
    id = id;
    player_id = player_id;
    balance = initial_balance;
    version = initial_version;
    created_at = now;
    updated_at = now;
  })

unfoldable pub restore_wallet : Uuid → Uuid → Money → ℤ → Time → Time → Result Wallet
unfolding validate_identity
restore_wallet id player_id balance version created_at updated_at = do
  validate_identity id player_id
  validate balance
  fail_if (is_negative balance) invalid_wallet_state
  fail_if (ltb_ℤ version initial_version) invalid_wallet_state
  fail_if (is_zero_time created_at || is_zero_time updated_at) invalid_timestamp
  fail_if (before updated_at created_at) invalid_wallet_state
  ok (record {
    id = id;
    player_id = player_id;
    balance = balance;
    version = version;
    created_at = created_at;
    updated_at = updated_at;
  })

-- The later of the two instants, as `apply` stamps a change.
abbrev pub occurrence : Time → Time → Time
occurrence now updated_at = if before now updated_at then updated_at else now

unfoldable pub apply : Wallet → Direction → Money → Money → Time → Wallet × BalanceChange
apply w direction amount new_balance now =
    let at = occurrence now w.updated_at in
    let version = wrap64 (w.version +ℤ pos 1) in
    (
      record w { balance = new_balance; version = version; updated_at = at },
      record {
        wallet_id = w.id;
        direction = direction;
        amount = amount;
        balance_before = w.balance;
        balance_after = new_balance;
        wallet_version = version;
        occurred_at = at;
      },
    )

-- The end of a method: the error leaves the wallet as it was.
abbrev pub commit : Wallet → Result (Wallet × BalanceChange) → Wallet × Result BalanceChange
commit w (ok (w', change)) = (w', ok change)
commit w (err e) = (w, err e)

unfoldable pub debit : Wallet → Money → Time → Wallet × Result BalanceChange
unfolding apply
debit w amount now = commit w do
  fail_if (is_zero amount || is_negative amount) invalid_debit
  fail_if (is_zero_time now) invalid_timestamp
  comparison ← compare_money w.balance amount
  fail_if (ltb_ℤ comparison (pos 0)) insufficient_funds
  new_balance ← subtract w.balance amount
  ok (apply w debit_direction amount new_balance now)

unfoldable pub credit : Wallet → Money → Time → Wallet × Result BalanceChange
unfolding apply
credit w amount now = commit w do
  fail_if (is_zero amount || is_negative amount) invalid_credit
  fail_if (is_zero_time now) invalid_timestamp
  new_balance ← add w.balance amount
  ok (apply w credit_direction amount new_balance now)
