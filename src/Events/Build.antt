-- ===== src/Events/Build.antt =====
-- events/wager-transaction-events.go and events/wallet-balance-changed.go: the constructors of the
-- four events.
use distributed_wallet_api.Prelude.{
  Bool, true, false, not, ◌||◌, if◌then◌else◌, none, some, pos, ltb_ℤ, Uuid, is_nil, is_empty,
  Result, ok, ◌>>=◌, ◌>>◌, fail_if, unexpected_state, invalid_transaction_id, invalid_wallet_id,
  invalid_player_id, uninitialized_money, missing_result_balance, missing_failure_code,
  missing_reference, invalid_direction, invalid_change_amount, negative_event_balance,
  invalid_wallet_version,
}
use distributed_wallet_api.Money.{Money, is_negative, is_positive}
use distributed_wallet_api.Wallet.{Direction, other, BalanceChange}
use distributed_wallet_api.Transaction.{
  WagerTransaction, TransactionState, pending_reference, processed, rejected, code_is_empty,
}
use distributed_wallet_api.Events.Contract.{
  wager_transaction_processed, wager_transaction_rejected, wager_transaction_pending_reference,
  wallet_balance_changed, Metadata, TransactionSubject, processed_data, rejected_data,
  pending_reference_data, balance_changed_data, Envelope, new_envelope,
}

-- `requireInitialized`, on one value.
unfoldable pub require_initialized : Money → Result (Unit {0})
require_initialized m = fail_if (is_empty m.currency) uninitialized_money

-- `==` of a state with one of the three that an event announces.
abbrev pub in_state : TransactionState → TransactionState → Bool
in_state processed processed = true
in_state rejected rejected = true
in_state pending_reference pending_reference = true
in_state _ _ = false

unfoldable pub new_subject : WagerTransaction → TransactionState → Result TransactionSubject
unfolding require_initialized
new_subject t expected = do
  fail_if (not (in_state t.state expected)) unexpected_state
  fail_if (is_nil t.id) invalid_transaction_id
  fail_if (is_nil t.wallet_id) invalid_wallet_id
  fail_if (is_nil t.player_id) invalid_player_id
  require_initialized t.money
  ok (record {
    transaction_id = t.id;
    wallet_id = t.wallet_id;
    player_id = t.player_id;
    provider_id = t.provider_id;
    external_transaction_id = t.external_transaction_id;
    round_id = t.round_id;
    game_id = t.game_id;
    kind = t.kind;
    money = t.money;
  })

unfoldable pub new_wager_transaction_processed :
    Uuid → WagerTransaction → Metadata → Result Envelope
unfolding new_subject new_envelope
new_wager_transaction_processed event_id t meta = do
  subject ← new_subject t processed
  fail_if (is_empty t.result_balance.currency) missing_result_balance
  let reference =
      if is_nil t.reference_transaction_id then none else some t.reference_transaction_id
  new_envelope event_id wager_transaction_processed (pos 1) t.id t.updated_at meta
      (some (processed_data subject t.result_balance reference))

unfoldable pub new_wager_transaction_rejected : Uuid → WagerTransaction → Metadata → Result Envelope
unfolding new_subject new_envelope
new_wager_transaction_rejected event_id t meta = do
  subject ← new_subject t rejected
  fail_if (code_is_empty t.failure_code) missing_failure_code
  new_envelope event_id wager_transaction_rejected (pos 1) t.id t.updated_at meta
      (some (rejected_data subject t.failure_code t.reference_external_id))

unfoldable pub new_wager_transaction_pending_reference :
    Uuid → WagerTransaction → Metadata → Result Envelope
unfolding new_subject new_envelope
new_wager_transaction_pending_reference event_id t meta = do
  subject ← new_subject t pending_reference
  fail_if (is_empty t.reference_external_id) missing_reference
  new_envelope event_id wager_transaction_pending_reference (pos 1) t.id t.updated_at meta
      (some (pending_reference_data subject t.reference_external_id))

abbrev is_other : Direction → Bool
is_other (other _) = true
is_other _ = false

unfoldable pub new_wallet_balance_changed : Uuid → BalanceChange → Uuid → Metadata → Result Envelope
unfolding require_initialized new_envelope
new_wallet_balance_changed event_id change transaction_id meta = do
  fail_if (is_nil change.wallet_id) invalid_wallet_id
  fail_if (is_nil transaction_id) invalid_transaction_id
  fail_if (is_other change.direction) invalid_direction
  require_initialized change.amount
  require_initialized change.balance_before
  require_initialized change.balance_after
  fail_if (not (is_positive change.amount)) invalid_change_amount
  fail_if (is_negative change.balance_before || is_negative change.balance_after)
      negative_event_balance
  fail_if (ltb_ℤ change.wallet_version (pos 1)) invalid_wallet_version
  new_envelope event_id wallet_balance_changed (pos 1) change.wallet_id change.occurred_at meta (
      some (
        balance_changed_data change.wallet_id transaction_id change.direction change.amount
          change.balance_before change.balance_after change.wallet_version))
