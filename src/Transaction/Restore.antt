-- ===== src/Transaction/Restore.antt =====
-- `RestoreTransaction`, which rebuilds a transaction from its persisted columns.
use distributed_wallet_api.Prelude.{
  not, ◌&&◌, ◌||◌, ◌==◌, if◌then◌else◌, Uuid, is_nil, Time, is_zero_time, before, Text, text_eq,
  is_empty, Result, ok, ◌>>◌, fail_if, unknown_transaction_kind, unknown_transaction_state,
  invalid_transaction_record, invalid_timestamp, currency_mismatch,
}
use distributed_wallet_api.Money.{Money, is_negative}
use distributed_wallet_api.Transaction.Kind.{
  TransactionKind, TransactionState, FailureCode, kind_is_valid, is_external, requires_reference,
  accepts_reference, state_is_valid, is_processed, is_refused, code_is_empty,
}
use distributed_wallet_api.Transaction.Entity.{
  WagerTransaction, validate_transaction_identity, validate_external_metadata,
  validate_amount_for_kind, validate_reference_for_kind,
}

pub record RestoredTransactionParams : Type 0 where
  pub id : Uuid
  pub wallet_id : Uuid
  pub player_id : Uuid
  pub provider_id : Text
  pub external_transaction_id : Text
  pub idempotency_key : Text
  pub payload_hash : Text
  pub round_id : Text
  pub game_id : Text
  pub reference_external_id : Text
  pub reference_transaction_id : Uuid
  pub kind : TransactionKind
  pub money : Money
  pub state : TransactionState
  pub failure_code : FailureCode
  pub result_balance : Money
  pub created_at : Time
  pub updated_at : Time

-- An external row carries the provider metadata, an OPENING none of it.
unfoldable pub check_origin :
    TransactionKind → Text → Text → Text → Text → Text → Text → Result (Unit {0})
check_origin kind provider external key hash round game =
    if is_external kind
    then validate_external_metadata provider external key hash round game
    else fail_if
        (not (
          is_empty provider
          && (is_empty external
              && (is_empty key && (is_empty hash && (is_empty round && is_empty game))))))
        invalid_transaction_record

unfoldable pub validate_restored_origin : RestoredTransactionParams → Result (Unit {0})
validate_restored_origin p =
    check_origin p.kind p.provider_id p.external_transaction_id p.idempotency_key p.payload_hash
      p.round_id p.game_id

-- The block of `validateRestoredOutcome` on a resolved reference.
unfoldable pub check_resolved : TransactionKind → Uuid → Text → Uuid → Result (Unit {0})
check_resolved kind id reference_external_id reference_transaction_id =
    if is_nil reference_transaction_id then ok tt else do
      fail_if (not (accepts_reference kind)) invalid_transaction_record
      fail_if (is_empty reference_external_id) invalid_transaction_record
      fail_if (reference_transaction_id == id) invalid_transaction_record

-- Its switch on the failure code.
unfoldable pub check_code : TransactionState → FailureCode → Result (Unit {0})
check_code state code =
    fail_if (if is_refused state then code_is_empty code else not (code_is_empty code))
      invalid_transaction_record

-- Its end, on the result balance: an unprocessed state requires a balance that does not validate.
unfoldable pub check_result :
    TransactionKind → Uuid → Money → TransactionState → Money → Result (Unit {0})
check_result kind reference_transaction_id money state result_balance =
    if not (is_processed state)
    then fail_if (not (is_empty result_balance.currency)) invalid_transaction_record
    else do
      fail_if (is_empty result_balance.currency) invalid_transaction_record
      fail_if (not (text_eq result_balance.currency money.currency)) currency_mismatch
      fail_if (is_negative result_balance) invalid_transaction_record
      fail_if (requires_reference kind && is_nil reference_transaction_id)
          invalid_transaction_record

unfoldable pub validate_restored_outcome : RestoredTransactionParams → Result (Unit {0})
validate_restored_outcome p = do
  check_resolved p.kind p.id p.reference_external_id p.reference_transaction_id
  check_code p.state p.failure_code
  check_result p.kind p.reference_transaction_id p.money p.state p.result_balance

unfoldable pub restore_transaction : RestoredTransactionParams → Result WagerTransaction
unfolding validate_restored_origin validate_restored_outcome
restore_transaction p = do
  fail_if (not (kind_is_valid p.kind)) unknown_transaction_kind
  fail_if (not (state_is_valid p.state)) unknown_transaction_state
  validate_transaction_identity p.id p.wallet_id p.player_id
  validate_restored_origin p
  validate_amount_for_kind p.kind p.money
  validate_reference_for_kind p.kind p.reference_external_id
  validate_restored_outcome p
  fail_if (is_zero_time p.created_at || is_zero_time p.updated_at) invalid_timestamp
  fail_if (before p.updated_at p.created_at) invalid_transaction_record
  ok (record {
    id = p.id;
    wallet_id = p.wallet_id;
    player_id = p.player_id;
    provider_id = p.provider_id;
    external_transaction_id = p.external_transaction_id;
    idempotency_key = p.idempotency_key;
    payload_hash = p.payload_hash;
    round_id = p.round_id;
    game_id = p.game_id;
    reference_external_id = p.reference_external_id;
    reference_transaction_id = p.reference_transaction_id;
    kind = p.kind;
    money = p.money;
    state = p.state;
    failure_code = p.failure_code;
    result_balance = p.result_balance;
    created_at = p.created_at;
    updated_at = p.updated_at;
  })
