-- ===== src/Process/Command.antt =====
-- The command and its validation, the result, and the decisions that need no database.
use distributed_wallet_api.Prelude.{
  Bool, true, false, not, ◌||◌, ◌==◌, if◌then◌else◌, Option, none, some, [], Uuid, nil_uuid, is_nil,
  Time, Text, text_eq, is_empty, Result, ok, err, ◌>>◌, fail_if, invalid_command,
  unresolved_reference, unreversible_reference,
}
use distributed_wallet_api.Money.{Money, no_money, equals}
use distributed_wallet_api.Wallet.{
  Wallet, Direction, debit_direction, credit_direction, BalanceChange, debit, credit,
}
use distributed_wallet_api.Transaction.{
  WagerTransaction, TransactionKind, bet, win, refund, rollback, is_external, requires_reference,
  kind_direction, TransactionState, other_state, FailureCode, no_code, insufficient_funds_code,
  reversal_insufficient_funds, code_is_empty,
}
use distributed_wallet_api.Events.{Metadata}

pub record WagerCommand : Type 0 where
  pub provider_id : Text
  pub external_transaction_id : Text
  pub idempotency_key : Text
  pub payload_hash : Text
  pub player_id : Uuid
  pub wallet_id : Uuid
  pub round_id : Text
  pub game_id : Text
  pub kind : TransactionKind
  pub money : Money
  pub reference_external_id : Text
  pub metadata : Metadata

pub record WagerResult : Type 0 where
  pub transaction_id : Uuid
  pub state : TransactionState
  pub balance : Money
  pub failure_code : FailureCode
  pub replayed : Bool

-- `WagerResult{}`
abbrev pub no_result : WagerResult
no_result = record {
  transaction_id = nil_uuid;
  state = other_state [];
  balance = no_money;
  failure_code = no_code;
  replayed = false;
}

-- `WagerCommand.validate`
unfoldable pub validate_command : WagerCommand → Result (Unit {0})
validate_command c = do
  fail_if (is_empty c.provider_id) invalid_command
  fail_if (is_empty c.external_transaction_id) invalid_command
  fail_if (is_empty c.payload_hash) invalid_command
  fail_if (is_nil c.wallet_id) invalid_command
  fail_if (is_nil c.player_id) invalid_command
  fail_if (not (is_external c.kind)) invalid_command
  fail_if (is_empty c.money.currency) invalid_command

abbrev pub opposite : Direction → Direction
opposite debit_direction = credit_direction
opposite _ = debit_direction

abbrev pub is_rollback : TransactionKind → Bool
is_rollback rollback = true
is_rollback _ = false

abbrev pub reversed_movement : Option WagerTransaction → Result (Option Direction)
reversed_movement none = err unresolved_reference
reversed_movement (some reference) = elim (kind_direction reference.kind) [
  | none ↦ err unreversible_reference
  | some original ↦ ok (some (opposite original))
]

-- The direction of a movement, or `none` for an operation that moves nothing.
unfoldable pub movement_of : WagerTransaction → Option WagerTransaction → Result (Option Direction)
unfolding kind_direction
movement_of t reference =
    if is_rollback t.kind then reversed_movement reference else ok (kind_direction t.kind)

unfoldable pub apply_movement : Wallet → Direction → Money → Time → Wallet × Result BalanceChange
apply_movement w debit_direction amount now = debit w amount now
apply_movement w _ amount now = credit w amount now

abbrev pub insufficient_funds_code_of : TransactionKind → FailureCode
insufficient_funds_code_of kind =
    if requires_reference kind then reversal_insufficient_funds else insufficient_funds_code

-- The switch of `agrees` on the kinds.
abbrev pub reversible : TransactionKind → TransactionKind → Bool
reversible refund bet = true
reversible refund _ = false
reversible rollback bet = true
reversible rollback win = true
reversible rollback refund = true
reversible rollback _ = false
reversible _ _ = true

abbrev is_ok_true : Result Bool → Bool
is_ok_true (ok b) = b
is_ok_true (err _) = false

unfoldable pub agrees : WagerTransaction → WagerTransaction → Bool
agrees t reference =
    if not (t.player_id == reference.player_id)
      || (not (t.wallet_id == reference.wallet_id) || not (text_eq t.round_id reference.round_id))
    then false
    else if not (reversible t.kind reference.kind)
    then false
    else is_ok_true (equals t.money reference.money)

unfoldable pub replay_of : WagerTransaction → WagerResult
replay_of t = record {
  transaction_id = t.id;
  state = t.state;
  balance = if is_empty t.result_balance.currency then no_money else t.result_balance;
  failure_code = if code_is_empty t.failure_code then no_code else t.failure_code;
  replayed = true;
}
