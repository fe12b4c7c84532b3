-- ===== src/Tests/Messages.antt =====
-- Messages and payloads.
use distributed_wallet_api.Prelude.{
  is_blank, ℕ, suc, ◌≡◌, refl, false, if◌then◌else◌, none, some, [], ◌∷◌, codes, Text, text_eq, ok,
  err, permanent_message,
}
use distributed_wallet_api.Transaction.{win}
use distributed_wallet_api.Money.{parse_money, is_valid_iso4217}
use distributed_wallet_api.Process.{execute_from_message, validate_command, run_with_retry}
use distributed_wallet_api.Store.{within, register}
use distributed_wallet_api.Store.Checks.{inbox_checks}
use distributed_wallet_api.Store.Invariant.{Valid}
use distributed_wallet_api.Process.Acknowledged.{Completed}
use distributed_wallet_api.Idempotency.{
  Json, string, object, Members, no_members, member, Library, canonical_object, canonical_hash,
  is_transport_field,
}
use distributed_wallet_api.Messaging.{
  Decoder, InboundJson, InboundMessage, RequestedJson, handle, validate_requested, disposal, delete,
  parse_inbound,
}
use distributed_wallet_api.Messaging.Safety.{Unhandled, handle-Valid, handle-err, handle-Completed}
use distributed_wallet_api.Tests.Scenario.{
  some_hash, quiet_ports, quiet_ports-Sound, world_of, initial_db, initial_db-Valid,
}
use distributed_wallet_api.Tests.Records.{seen_db}

count_members : Members → ℕ
count_members no_members = 0
count_members (member k v m) = suc (count_members m)

abbrev encode_object : Json → Text
unfolding count_members
encode_object (object m) = count_members m ∷ []
encode_object _ = []

-- One payload beside another with its members in another order and a message identifier.
abbrev plain : Members
plain =
    member (codes "kind") (string (codes "WIN"))
      (member (codes "gameId") (string (codes "g1")) no_members)

abbrev traced : Members
traced = member (codes "messageid") (string (codes "m1")) (
    member (codes "gameId") (string (codes "g1"))
      (member (codes "kind") (string (codes "WIN")) no_members))

abbrev library : Library
library = record {
  decode = λ t.
      some (if text_eq t (codes "plain") then (object plain, false) else (object traced, false));
  encode = encode_object;
  to_lower = λ t. t;
  digest = λ t. some_hash;
}

abbrev requested : RequestedJson
requested = record {
  provider_id = codes "p1";
  external_transaction_id = codes "t1";
  idempotency_key = codes "k1";
  player_id = 8;
  wallet_id = 7;
  round_id = codes "r1";
  game_id = codes "g1";
  kind = win;
  money = some (record { amount = codes "5.00"; currency = codes "BRL" });
  reference_external_transaction_id = [];
  correlation_id = none;
}

abbrev wire : InboundJson
wire = record {
  message_id = codes "m1";
  message_type = codes "WagerTransactionRequested";
  occurred_at = 5;
  data_json = codes "traced";
}

abbrev decoder : Decoder
decoder = record {
  decode_message = λ t. some wire;
  decode_data = λ t. some requested;
  library = library;
}

handle-Valid_example :
    Valid
      (handle quiet_ports decoder (λ t. 9) (codes "c1") (codes "body") (world_of initial_db)).1.db
handle-Valid_example =
    handle-Valid quiet_ports decoder (λ t. 9) (codes "c1") (codes "body") (world_of initial_db)
      quiet_ports-Sound initial_db-Valid

deleted :
    disposal 30000000000 none
      (handle quiet_ports decoder (λ t. 9) (codes "c1") (codes "body") (world_of seen_db)).0
    ≡ delete
unfolding disposal handle parse_inbound is_blank text_eq parse_money is_valid_iso4217
    validate_requested canonical_hash canonical_object is_transport_field execute_from_message
    validate_command run_with_retry within register inbox_checks
deleted = refl

handle-Completed_example :
    (m : InboundMessage) × (parse_inbound decoder (codes "body") ≡ ok m)
    × Completed
        (codes "c1")
        m.message_id
        (handle quiet_ports decoder (λ t. 9) (codes "c1") (codes "body") (world_of seen_db)).1.db
handle-Completed_example =
    handle-Completed quiet_ports decoder (λ t. 9) (codes "c1") (codes "body") (world_of seen_db)
      30000000000 none deleted

abbrev broken : Decoder
broken = record { decode_message = λ t. none; decode_data = λ t. none; library = library }

refused_body :
    (handle quiet_ports broken (λ t. 9) (codes "c1") (codes "body") (world_of initial_db)).0
    ≡ err permanent_message
unfolding handle parse_inbound
refused_body = refl

handle-err_example :
    Unhandled quiet_ports broken
      (λ t. 9)
      (codes "c1")
      (codes "body")
      (world_of initial_db)
      permanent_message
      (handle quiet_ports broken (λ t. 9) (codes "c1") (codes "body") (world_of initial_db)).1.db
handle-err_example =
    handle-err quiet_ports broken (λ t. 9) (codes "c1") (codes "body") (world_of initial_db)
      (λ n db. refl) refused_body
