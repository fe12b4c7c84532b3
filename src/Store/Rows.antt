-- ===== src/Store/Rows.antt =====
-- The rows of wager_transactions and of wallets: what `Insert` writes and what a scan reads back
-- (transaction-repository.go, wallet-repository.go).
use distributed_wallet_api.Prelude.{
  if◌then◌else◌, Option, none, some, [], ℤ, Uuid, nil_uuid, is_nil, Time, Text, is_empty, Result,
  ok, ◌>>=◌,
}
use distributed_wallet_api.Money.{Money, no_money, new_money}
use distributed_wallet_api.Wallet.{Wallet, restore_wallet}
use distributed_wallet_api.Transaction.{
  WagerTransaction, TransactionKind, TransactionState, FailureCode, no_code, code_is_empty,
  restore_transaction,
}

-- A nullable column is an `Option`.
pub record TransactionRow : Type 0 where
  pub id : Uuid
  pub wallet_id : Uuid
  pub player_id : Uuid
  pub currency : Text
  pub amount_cents : ℤ
  pub kind : TransactionKind
  pub state : TransactionState
  pub provider_id : Option Text
  pub external_transaction_id : Option Text
  pub idempotency_key : Option Text
  pub payload_hash : Option Text
  pub round_id : Option Text
  pub game_id : Option Text
  pub reference_external_id : Option Text
  pub reference_transaction_id : Option Uuid
  pub failure_code : Option FailureCode
  pub result_balance_cents : Option ℤ
  pub created_at : Time
  pub updated_at : Time

abbrev pub nullable_text : Text → Option Text
nullable_text value = if is_empty value then none else some value

abbrev pub nullable_uuid : Uuid → Option Uuid
nullable_uuid value = if is_nil value then none else some value

-- `nullableText` on a failure code.
abbrev pub nullable_code : FailureCode → Option FailureCode
nullable_code code = if code_is_empty code then none else some code

abbrev pub nullable_cents : Money → Option ℤ
nullable_cents m = if is_empty m.currency then none else some m.cents

abbrev pub text_of : Option Text → Text
text_of none = []
text_of (some t) = t

abbrev pub uuid_of : Option Uuid → Uuid
uuid_of none = nil_uuid
uuid_of (some u) = u

abbrev pub code_of : Option FailureCode → FailureCode
code_of none = no_code
code_of (some c) = c

-- The row that `Insert` writes.
unfoldable pub row_of : WagerTransaction → TransactionRow
row_of t = record {
  id = t.id;
  wallet_id = t.wallet_id;
  player_id = t.player_id;
  currency = t.money.currency;
  amount_cents = t.money.cents;
  kind = t.kind;
  state = t.state;
  provider_id = nullable_text t.provider_id;
  external_transaction_id = nullable_text t.external_transaction_id;
  idempotency_key = nullable_text t.idempotency_key;
  payload_hash = nullable_text t.payload_hash;
  round_id = nullable_text t.round_id;
  game_id = nullable_text t.game_id;
  reference_external_id = nullable_text t.reference_external_id;
  reference_transaction_id = nullable_uuid t.reference_transaction_id;
  failure_code = nullable_code t.failure_code;
  result_balance_cents = nullable_cents t.result_balance;
  created_at = t.created_at;
  updated_at = t.updated_at;
}

abbrev pub scan_balance : Option ℤ → Text → Result Money
scan_balance none currency = ok no_money
scan_balance (some cents) currency = new_money cents currency

unfoldable pub scan_transaction : TransactionRow → Result WagerTransaction
scan_transaction r = do
  amount ← new_money r.amount_cents r.currency
  result_balance ← scan_balance r.result_balance_cents r.currency
  restore_transaction (record {
    id = r.id;
    wallet_id = r.wallet_id;
    player_id = r.player_id;
    provider_id = text_of r.provider_id;
    external_transaction_id = text_of r.external_transaction_id;
    idempotency_key = text_of r.idempotency_key;
    payload_hash = text_of r.payload_hash;
    round_id = text_of r.round_id;
    game_id = text_of r.game_id;
    reference_external_id = text_of r.reference_external_id;
    reference_transaction_id = uuid_of r.reference_transaction_id;
    kind = r.kind;
    money = amount;
    state = r.state;
    failure_code = code_of r.failure_code;
    result_balance = result_balance;
    created_at = r.created_at;
    updated_at = r.updated_at;
  })

pub record WalletRow : Type 0 where
  pub id : Uuid
  pub player_id : Uuid
  pub currency : Text
  pub balance_cents : ℤ
  pub version : ℤ
  pub created_at : Time
  pub updated_at : Time

abbrev pub wallet_row_of : Wallet → WalletRow
wallet_row_of w = record {
  id = w.id;
  player_id = w.player_id;
  currency = w.balance.currency;
  balance_cents = w.balance.cents;
  version = w.version;
  created_at = w.created_at;
  updated_at = w.updated_at;
}

unfoldable pub scan_wallet : WalletRow → Result Wallet
scan_wallet r = new_money r.balance_cents r.currency >>= λ balance.
    restore_wallet r.id r.player_id balance r.version r.created_at r.updated_at
