-- ===== src/Events/Contract.antt =====
-- events/envelope.go: event and aggregate types, metadata, the envelope, its constructor and its
-- rehydration from an outbox row.
use distributed_wallet_api.Prelude.{
  Bool, true, false, not, ◌||◌, ◌==◌, Option, none, some, [], ◌∷◌, ℤ, pos, ltb_ℤ, Uuid, nil_uuid,
  is_nil, Time, is_zero_time, Text, is_empty, trim_space, Result, ok, err, ◌>>=◌, ◌>>◌, fail_if,
  unknown_event_type, unknown_aggregate_type, aggregate_type_mismatch, invalid_event_id,
  invalid_event_version, invalid_aggregate_id, invalid_correlation_id, invalid_occurred_at,
  missing_event_data, invalid_event_data,
}
use distributed_wallet_api.Money.{Money}
use distributed_wallet_api.Wallet.{Direction}
use distributed_wallet_api.Transaction.{TransactionKind, FailureCode}

pub data EventType : Type 0 where
  wager_transaction_processed wager_transaction_rejected : EventType
  wager_transaction_pending_reference wallet_balance_changed : EventType
  other_event : Text → EventType

pub data AggregateType : Type 0 where
  wallet_aggregate wager_transaction_aggregate : AggregateType
  other_aggregate : Text → AggregateType

-- `AggregateType.IsValid`
abbrev pub aggregate_is_valid : AggregateType → Bool
aggregate_is_valid (other_aggregate _) = false
aggregate_is_valid _ = true

-- `==` of two aggregate types, of which the second is a named one.
abbrev pub same_aggregate : AggregateType → AggregateType → Bool
same_aggregate wallet_aggregate wallet_aggregate = true
same_aggregate wager_transaction_aggregate wager_transaction_aggregate = true
same_aggregate _ _ = false

unfoldable pub aggregate_for : EventType → Result AggregateType
aggregate_for wallet_balance_changed = ok wallet_aggregate
aggregate_for (other_event _) = err unknown_event_type
aggregate_for _ = ok wager_transaction_aggregate

pub record Metadata : Type 0 where
  pub correlation_id : Uuid
  pub causation_id : Uuid

-- `NewMetadata`
abbrev pub new_metadata : Uuid → Metadata
new_metadata correlation_id = record { correlation_id = correlation_id; causation_id = nil_uuid }

-- `Metadata.CausedBy`
abbrev pub caused_by : Metadata → Uuid → Metadata
caused_by m causation_id = record m { causation_id = causation_id }

unfoldable pub metadata_validate : Metadata → Result (Unit {0})
metadata_validate m = fail_if (is_nil m.correlation_id) invalid_correlation_id

pub record TransactionSubject : Type 0 where
  pub transaction_id : Uuid
  pub wallet_id : Uuid
  pub player_id : Uuid
  pub provider_id : Text
  pub external_transaction_id : Text
  pub round_id : Text
  pub game_id : Text
  pub kind : TransactionKind
  pub money : Money

-- The payloads, and the stored snapshot that a restored envelope carries.
pub data EventData : Type 0 where
  processed_data : TransactionSubject → Money → Option Uuid → EventData
  rejected_data : TransactionSubject → FailureCode → Text → EventData
  pending_reference_data : TransactionSubject → Text → EventData
  balance_changed_data : Uuid → Uuid → Direction → Money → Money → Money → ℤ → EventData
  raw_message : Text → EventData

pub record Envelope : Type 0 where
  pub id : Uuid
  pub event_type : EventType
  pub version : ℤ
  pub aggregate_type : AggregateType
  pub aggregate_id : Uuid
  pub correlation_id : Uuid
  pub causation_id : Uuid
  pub occurred_at : Time
  pub payload : Option EventData  -- `none` is nil

abbrev is_nil_data : Option EventData → Bool
is_nil_data none = true
is_nil_data (some _) = false

-- `event_id` is what `uuid.New()` returns in the call.
unfoldable pub new_envelope :
    Uuid → EventType → ℤ → Uuid → Time → Metadata → Option EventData → Result Envelope
unfolding aggregate_for metadata_validate
new_envelope event_id event_type version aggregate_id occurred_at meta payload = do
  aggregate_type ← aggregate_for event_type
  fail_if (ltb_ℤ version (pos 1)) invalid_event_version
  fail_if (is_nil aggregate_id) invalid_aggregate_id
  fail_if (is_zero_time occurred_at) invalid_occurred_at
  metadata_validate meta
  fail_if (is_nil_data payload) missing_event_data
  ok (record {
    id = event_id;
    event_type = event_type;
    version = version;
    aggregate_type = aggregate_type;
    aggregate_id = aggregate_id;
    correlation_id = meta.correlation_id;
    causation_id = meta.causation_id;
    occurred_at = occurred_at;
    payload = payload;
  })

pub record RestoredEnvelopeParams : Type 0 where
  pub id : Uuid
  pub event_type : EventType
  pub version : ℤ
  pub aggregate_type : AggregateType
  pub aggregate_id : Uuid
  pub correlation_id : Uuid
  pub causation_id : Uuid
  pub occurred_at : Time
  pub payload : Text

abbrev starts_object : Text → Bool
starts_object [] = false
starts_object (c ∷ _) = c == b'{'

-- `json_valid` is `json.Valid`.
unfoldable pub validate_payload : (Text → Bool) → Text → Result (Unit {0})
validate_payload json_valid payload = do
  let trimmed = trim_space payload
  fail_if (is_empty trimmed) missing_event_data
  fail_if (not (starts_object trimmed) || not (json_valid trimmed)) invalid_event_data

unfoldable pub restore_envelope : (Text → Bool) → RestoredEnvelopeParams → Result Envelope
unfolding aggregate_for validate_payload
restore_envelope json_valid p = do
  expected_aggregate ← aggregate_for p.event_type
  fail_if (is_nil p.id) invalid_event_id
  fail_if (not (aggregate_is_valid p.aggregate_type)) unknown_aggregate_type
  fail_if (not (same_aggregate p.aggregate_type expected_aggregate)) aggregate_type_mismatch
  fail_if (ltb_ℤ p.version (pos 1)) invalid_event_version
  fail_if (is_nil p.aggregate_id) invalid_aggregate_id
  fail_if (is_nil p.correlation_id) invalid_correlation_id
  fail_if (is_zero_time p.occurred_at) invalid_occurred_at
  validate_payload json_valid p.payload
  ok (record {
    id = p.id;
    event_type = p.event_type;
    version = p.version;
    aggregate_type = p.aggregate_type;
    aggregate_id = p.aggregate_id;
    correlation_id = p.correlation_id;
    causation_id = p.causation_id;
    occurred_at = p.occurred_at;
    payload = some (raw_message p.payload);
  })
