-- ===== src/Messaging/Inbound.antt =====
-- The inbound message (cmd/internal/events/inbound-message.go), with `Money.UnmarshalJSON` of
-- cmd/internal/domain/money.go for its amount.
use distributed_wallet_api.Prelude.{
  not, ◌&&◌, if◌then◌else◌, Option, none, some, Text, text_eq, is_blank, is_empty, codes, Uuid,
  is_nil, Time, is_zero_time, Result, ok, err, fail_if, ◌>>=◌, ◌>>◌, invalid_message,
  missing_message_id, unknown_message_type, invalid_occurred_at, missing_message_data,
  missing_provider_id, missing_external_id, missing_idempotency_key, invalid_player_id,
  invalid_wallet_id, missing_round_id, missing_game_id, unknown_transaction_kind,
  invalid_external_kind, uninitialized_money, missing_reference, reference_not_applicable,
}
use distributed_wallet_api.Money.{Money, no_money, parse_money}
use distributed_wallet_api.Transaction.{
  TransactionKind, kind_is_valid, is_external, requires_reference, accepts_reference,
}
use distributed_wallet_api.Events.{Metadata}
use distributed_wallet_api.Idempotency.{Library, canonical_hash}

-- `moneyJSON`
pub record MoneyJson : Type 0 where
  pub amount : Text
  pub currency : Text

-- The data object as the JSON decoder fills it; `none` for a member that is absent.
pub record RequestedJson : Type 0 where
  pub provider_id : Text
  pub external_transaction_id : Text
  pub idempotency_key : Text
  pub player_id : Uuid
  pub wallet_id : Uuid
  pub round_id : Text
  pub game_id : Text
  pub kind : TransactionKind
  pub money : Option MoneyJson
  pub reference_external_transaction_id : Text
  pub correlation_id : Option Uuid

pub record WagerTransactionRequested : Type 0 where
  pub provider_id : Text
  pub external_transaction_id : Text
  pub idempotency_key : Text
  pub player_id : Uuid
  pub wallet_id : Uuid
  pub round_id : Text
  pub game_id : Text
  pub kind : TransactionKind
  pub money : Money
  pub reference_external_transaction_id : Text
  pub correlation_id : Option Uuid

-- `inboundJSON`, with the raw data object
pub record InboundJson : Type 0 where
  pub message_id : Text
  pub message_type : Text
  pub occurred_at : Time
  pub data_json : Text

pub record InboundMessage : Type 0 where
  pub message_id : Text
  pub message_type : Text
  pub occurred_at : Time
  pub data_of : WagerTransactionRequested
  pub payload_hash : Text

-- `json.Unmarshal` into the two shapes, `none` for its errors, and the library of the hash.
pub record Decoder : Type 0 where
  pub decode_message : Text → Option InboundJson
  pub decode_data : Text → Option RequestedJson
  pub library : Library

-- `Money.UnmarshalJSON` on a decoded object
abbrev pub unmarshal_money : MoneyJson → Result Money
unmarshal_money m = parse_money m.amount m.currency

abbrev pub money_of : Option MoneyJson → Result Money
money_of none = ok no_money
money_of (some m) = unmarshal_money m

-- An error of a member is wrapped as the message's.
abbrev pub as_message : {A : Type 0} → Result A → Result A
as_message (ok a) = ok a
as_message (err _) = err invalid_message

abbrev pub with_money : RequestedJson → Money → WagerTransactionRequested
with_money r money = record {
  provider_id = r.provider_id;
  external_transaction_id = r.external_transaction_id;
  idempotency_key = r.idempotency_key;
  player_id = r.player_id;
  wallet_id = r.wallet_id;
  round_id = r.round_id;
  game_id = r.game_id;
  kind = r.kind;
  money = money;
  reference_external_transaction_id = r.reference_external_transaction_id;
  correlation_id = r.correlation_id;
}

-- `requireInitialized` of one value
abbrev pub initialized : Money → Result (Unit {0})
initialized m = fail_if (is_empty m.currency) uninitialized_money

-- `WagerTransactionRequested.validate`
unfoldable pub validate_requested : WagerTransactionRequested → Result (Unit {0})
validate_requested d = do
  fail_if (is_blank d.provider_id) missing_provider_id
  fail_if (is_blank d.external_transaction_id) missing_external_id
  fail_if (is_blank d.idempotency_key) missing_idempotency_key
  fail_if (is_nil d.player_id) invalid_player_id
  fail_if (is_nil d.wallet_id) invalid_wallet_id
  fail_if (is_blank d.round_id) missing_round_id
  fail_if (is_blank d.game_id) missing_game_id
  fail_if (not (kind_is_valid d.kind)) unknown_transaction_kind
  fail_if (not (is_external d.kind)) invalid_external_kind
  initialized d.money
  fail_if (requires_reference d.kind && is_blank d.reference_external_transaction_id)
      missing_reference
  fail_if (not (accepts_reference d.kind) && not (is_empty d.reference_external_transaction_id))
      reference_not_applicable

module _ (decoder : Decoder) where
  abbrev pub requested_of : Option RequestedJson → Result WagerTransactionRequested
  requested_of none = err invalid_message
  requested_of (some r) = as_message (money_of r.money) >>= λ money. ok (with_money r money)

  abbrev pub parse_decoded : Option InboundJson → Result InboundMessage
  parse_decoded none = err invalid_message
  parse_decoded (some wire) = do
    fail_if (is_blank wire.message_id) missing_message_id
    fail_if (not (text_eq wire.message_type (codes "WagerTransactionRequested")))
        unknown_message_type
    fail_if (is_zero_time wire.occurred_at) invalid_occurred_at
    fail_if (is_empty wire.data_json) missing_message_data
    requested ← requested_of (decoder.decode_data wire.data_json)
    validate_requested requested
    payload_hash ← canonical_hash decoder.library wire.data_json
    ok (record {
      message_id = wire.message_id;
      message_type = wire.message_type;
      occurred_at = wire.occurred_at;
      data_of = requested;
      payload_hash = payload_hash;
    })

  unfoldable pub parse_inbound : Text → Result InboundMessage
  parse_inbound body = parse_decoded (decoder.decode_message body)

abbrev sent_or : Option Uuid → Uuid → Uuid
sent_or none fresh = fresh
sent_or (some id) fresh = if is_nil id then fresh else id

-- `InboundMessage.Metadata`; `fresh` is what `uuid.New()` returns in the call.
abbrev pub metadata_of_message : InboundMessage → Uuid → Uuid → Metadata
metadata_of_message m causation_id fresh = record {
  correlation_id = sent_or m.data_of.correlation_id fresh;
  causation_id = causation_id;
}
