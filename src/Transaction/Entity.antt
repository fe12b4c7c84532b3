-- ===== src/Transaction/Entity.antt =====
-- The entity, its validations and the constructors `NewOpeningTransaction` and
-- `NewExternalTransaction`.
use distributed_wallet_api.Prelude.{
  not, ◌&&◌, [], Uuid, nil_uuid, is_nil, Time, is_zero_time, Text, is_blank, Result, ok, ◌>>◌,
  fail_if, unknown_transaction_kind, invalid_external_kind, invalid_transaction_id,
  invalid_wallet_id, invalid_player_id, invalid_transaction_amount, missing_external_metadata,
  missing_reference, reference_not_applicable, invalid_timestamp,
}
use distributed_wallet_api.Money.{Money, no_money, validate, is_zero, is_negative, is_positive}
use distributed_wallet_api.Transaction.Kind.{
  TransactionKind, opening, TransactionState, pending, processed, FailureCode, no_code,
  kind_is_valid, is_opening, requires_reference, accepts_reference, requires_positive_amount,
}

pub record WagerTransaction : Type 0 where
  pub id : Uuid
  pub wallet_id : Uuid
  pub player_id : Uuid
  pub provider_id : Text
  pub external_transaction_id : Text
  pub idempotency_key : Text
  pub payload_hash : Text
  pub round_id : Text
  pub game_id : Text
  pub reference_external_id : Text
  pub reference_transaction_id : Uuid
  pub kind : TransactionKind
  pub money : Money
  pub state : TransactionState
  pub failure_code : FailureCode
  pub result_balance : Money
  pub created_at : Time
  pub updated_at : Time

pub record ExternalTransactionParams : Type 0 where
  pub id : Uuid
  pub wallet_id : Uuid
  pub player_id : Uuid
  pub provider_id : Text
  pub external_transaction_id : Text
  pub idempotency_key : Text
  pub payload_hash : Text
  pub round_id : Text
  pub game_id : Text
  pub reference_external_id : Text
  pub kind : TransactionKind
  pub money : Money
  pub now : Time

unfoldable pub validate_transaction_identity : Uuid → Uuid → Uuid → Result (Unit {0})
validate_transaction_identity id wallet_id player_id = do
  fail_if (is_nil id) invalid_transaction_id
  fail_if (is_nil wallet_id) invalid_wallet_id
  fail_if (is_nil player_id) invalid_player_id

-- The six fields of the source's loop, in its order.
unfoldable pub validate_external_metadata :
    Text → Text → Text → Text → Text → Text → Result (Unit {0})
validate_external_metadata provider external key hash round game = do
  fail_if (is_blank provider) missing_external_metadata
  fail_if (is_blank external) missing_external_metadata
  fail_if (is_blank key) missing_external_metadata
  fail_if (is_blank hash) missing_external_metadata
  fail_if (is_blank round) missing_external_metadata
  fail_if (is_blank game) missing_external_metadata

unfoldable pub validate_amount_for_kind : TransactionKind → Money → Result (Unit {0})
validate_amount_for_kind kind amount = do
  validate amount
  fail_if (is_negative amount) invalid_transaction_amount
  fail_if (requires_positive_amount kind && not (is_positive amount)) invalid_transaction_amount
  fail_if (not (requires_positive_amount kind) && not (is_zero amount)) invalid_transaction_amount

unfoldable pub validate_reference_for_kind : TransactionKind → Text → Result (Unit {0})
validate_reference_for_kind kind reference_external_id = do
  let present = not (is_blank reference_external_id)
  fail_if (requires_reference kind && not present) missing_reference
  fail_if (not (accepts_reference kind) && present) reference_not_applicable

unfoldable pub new_opening_transaction : Uuid → Uuid → Uuid → Money → Time → Result WagerTransaction
new_opening_transaction id wallet_id player_id amount now = do
  validate_transaction_identity id wallet_id player_id
  validate_amount_for_kind opening amount
  fail_if (is_zero_time now) invalid_timestamp
  ok (record {
    id = id;
    wallet_id = wallet_id;
    player_id = player_id;
    provider_id = [];
    external_transaction_id = [];
    idempotency_key = [];
    payload_hash = [];
    round_id = [];
    game_id = [];
    reference_external_id = [];
    reference_transaction_id = nil_uuid;
    kind = opening;
    money = amount;
    state = processed;
    failure_code = no_code;
    result_balance = amount;
    created_at = now;
    updated_at = now;
  })

unfoldable pub new_external_transaction : ExternalTransactionParams → Result WagerTransaction
new_external_transaction p = do
  fail_if (not (kind_is_valid p.kind)) unknown_transaction_kind
  fail_if (is_opening p.kind) invalid_external_kind
  validate_transaction_identity p.id p.wallet_id p.player_id
  validate_external_metadata p.provider_id p.external_transaction_id p.idempotency_key
      p.payload_hash p.round_id p.game_id
  validate_amount_for_kind p.kind p.money
  validate_reference_for_kind p.kind p.reference_external_id
  fail_if (is_zero_time p.now) invalid_timestamp
  ok (record {
    id = p.id;
    wallet_id = p.wallet_id;
    player_id = p.player_id;
    provider_id = p.provider_id;
    external_transaction_id = p.external_transaction_id;
    idempotency_key = p.idempotency_key;
    payload_hash = p.payload_hash;
    round_id = p.round_id;
    game_id = p.game_id;
    reference_external_id = p.reference_external_id;
    reference_transaction_id = nil_uuid;
    kind = p.kind;
    money = p.money;
    state = pending;
    failure_code = no_code;
    result_balance = no_money;
    created_at = p.now;
    updated_at = p.now;
  })
