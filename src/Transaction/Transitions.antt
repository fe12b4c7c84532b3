-- ===== src/Transaction/Transitions.antt =====
-- The state machine. A transition mutates the entity in the source: here it returns the entity
-- after the transition, or the error, which leaves the entity as it was.
use distributed_wallet_api.Prelude.{
  not, ◌&&◌, ◌||◌, ◌==◌, if◌then◌else◌, Uuid, is_nil, Time, is_zero_time, before, text_eq, is_empty,
  Result, ok, ◌>>◌, fail_if, unknown_transaction_state, transaction_terminal, invalid_timestamp,
  currency_mismatch, invalid_transaction_amount, unresolved_reference, missing_failure_code,
  reference_not_applicable, missing_reference, invalid_transaction_id, reference_already_resolved,
}
use distributed_wallet_api.Money.{Money, validate, is_negative}
use distributed_wallet_api.Transaction.Kind.{
  processed, rejected, failed, pending_reference, FailureCode, requires_reference,
  accepts_reference, state_is_valid, is_terminal, code_is_blank,
}
use distributed_wallet_api.Transaction.Entity.{WagerTransaction}

unfoldable pub ensure_transition : WagerTransaction → Time → Result (Unit {0})
ensure_transition t now = do
  fail_if (not (state_is_valid t.state)) unknown_transaction_state
  fail_if (is_terminal t.state) transaction_terminal
  fail_if (is_zero_time now) invalid_timestamp

-- The instant that `touch` stores.
abbrev pub touched : WagerTransaction → Time → Time
touched t now = if before now t.updated_at then t.updated_at else now

unfoldable pub mark_as_processed : WagerTransaction → Money → Time → Result WagerTransaction
unfolding ensure_transition
mark_as_processed t result_balance now = do
  ensure_transition t now
  validate result_balance
  fail_if (not (text_eq result_balance.currency t.money.currency)) currency_mismatch
  fail_if (is_negative result_balance) invalid_transaction_amount
  fail_if (requires_reference t.kind && is_nil t.reference_transaction_id) unresolved_reference
  ok (record t { state = processed; result_balance = result_balance; updated_at = touched t now })

unfoldable pub reject : WagerTransaction → FailureCode → Time → Result WagerTransaction
unfolding ensure_transition
reject t failure_code now = do
  ensure_transition t now
  fail_if (code_is_blank failure_code) missing_failure_code
  ok (record t { state = rejected; failure_code = failure_code; updated_at = touched t now })

unfoldable pub fail : WagerTransaction → FailureCode → Time → Result WagerTransaction
unfolding ensure_transition
fail t failure_code now = do
  ensure_transition t now
  fail_if (code_is_blank failure_code) missing_failure_code
  ok (record t { state = failed; failure_code = failure_code; updated_at = touched t now })

unfoldable pub mark_as_pending_reference : WagerTransaction → Time → Result WagerTransaction
unfolding ensure_transition
mark_as_pending_reference t now = do
  ensure_transition t now
  fail_if (not (accepts_reference t.kind)) reference_not_applicable
  fail_if (is_empty t.reference_external_id) missing_reference
  ok (record t { state = pending_reference; updated_at = touched t now })

unfoldable pub resolve_reference : WagerTransaction → Uuid → Time → Result WagerTransaction
unfolding ensure_transition
resolve_reference t reference_id now = do
  ensure_transition t now
  fail_if (not (accepts_reference t.kind)) reference_not_applicable
  fail_if (is_empty t.reference_external_id) missing_reference
  fail_if (is_nil reference_id || reference_id == t.id) invalid_transaction_id
  fail_if
      (not (is_nil t.reference_transaction_id) && not (t.reference_transaction_id == reference_id))
      reference_already_resolved
  ok (record t { reference_transaction_id = reference_id; updated_at = touched t now })
