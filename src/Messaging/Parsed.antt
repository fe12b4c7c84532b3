-- ===== src/Messaging/Parsed.antt =====
-- What holds of every message that `ParseInbound` accepts.
use distributed_wallet_api.Prelude.{
  ◌≡◌, refl, sym, true, false, Option, none, some, arith, Text, is_empty, Result, ok, err, ◌>>=◌,
}
use distributed_wallet_api.Money.{Money, IsInt64, is_valid_iso4217, parse_money}
use distributed_wallet_api.Money.Canonical.{amount_string-parse_money}
use distributed_wallet_api.Messaging.Inbound.{
  MoneyJson, InboundJson, RequestedJson, InboundMessage, WagerTransactionRequested, Decoder,
  money_of, as_message, with_money, validate_requested, requested_of, parse_decoded, parse_inbound,
}

-- The amount and the identifiers are what an operation needs.
pub record Wellformed (d : WagerTransactionRequested) : Type 0 where
  pub iso : is_valid_iso4217 d.money.currency ≡ true
  pub in_range : IsInt64 d.money.cents

validate_requested-currency :
    (d : WagerTransactionRequested)
    → validate_requested d ≡ ok tt
    → is_empty d.money.currency ≡ false
unfolding validate_requested
validate_requested-currency d e = ground arith

as_message-ok : {A : Type 0} (r : Result A) {a : A} → as_message r ≡ ok a → r ≡ ok a
as_message-ok (ok b) e = e
as_message-ok (err _) e = cc

money_of-Wellformed :
    (o : Option MoneyJson) {m : Money}
    → as_message (money_of o) ≡ ok m
    → is_empty m.currency ≡ false
    → (is_valid_iso4217 m.currency ≡ true) × IsInt64 m.cents
money_of-Wellformed none {m} e full = absurd (ground arith)
money_of-Wellformed (some j) {m} e full =
    let (printed, same, iso, fits) =
      amount_string-parse_money j.amount j.currency
        (as_message-ok (parse_money j.amount j.currency) e) in
    (rw same iso, fits)

requested_of-Wellformed :
    (decoder : Decoder) (o : Option RequestedJson) {d : WagerTransactionRequested}
    → requested_of decoder o ≡ ok d
    → validate_requested d ≡ ok tt
    → Wellformed d
requested_of-Wellformed decoder none e v = cc
requested_of-Wellformed decoder (some r) {d} e v = go (as_message (money_of r.money)) refl e
  where
    go :
        (x : Result Money)
        → as_message (money_of r.money) ≡ x
        → (x >>= λ money. ok (with_money r money)) ≡ ok d
        → Wellformed d
    go (err _) read e = cc
    go (ok m) read e =
        let same : m ≡ d.money = ground arith in
        let (iso, fits) =
          money_of-Wellformed r.money {m = m} read (rw same (validate_requested-currency d v)) in
        record { iso = rw (sym same) iso; in_range = rw (sym same) fits }

parse_decoded-inv :
    (decoder : Decoder) (wire : InboundJson) {m : InboundMessage}
    → parse_decoded decoder (some wire) ≡ ok m
    → (requested_of decoder (decoder.decode_data wire.data_json) ≡ ok m.data_of)
      × (validate_requested m.data_of ≡ ok tt)
parse_decoded-inv decoder wire e = ground arith

pub parse_inbound-Wellformed :
    (decoder : Decoder) (body : Text) {m : InboundMessage}
    → parse_inbound decoder body ≡ ok m
    → Wellformed m.data_of
unfolding parse_inbound
parse_inbound-Wellformed decoder body {m} e = go (decoder.decode_message body) e
  where
    go : (o : Option InboundJson) → parse_decoded decoder o ≡ ok m → Wellformed m.data_of
    go none e = cc
    go (some wire) e =
        let (read, valid) = parse_decoded-inv decoder wire e in
        requested_of-Wellformed decoder (decoder.decode_data wire.data_json) read valid
