-- ===== src/Tests/Amounts.antt =====
-- Amounts as text, on the scenario.
use distributed_wallet_api.Prelude.{◌≡◌, refl, arith, true, ok, codes}
use distributed_wallet_api.Money.{IsInt64, is_valid_iso4217, parse_money, numeral, amount_string}
use distributed_wallet_api.Money.RoundTrip.{parse_money-amount_string}
use distributed_wallet_api.Money.Canonical.{amount_string-parse_money}
use distributed_wallet_api.Tests.Scenario.{brl, brl-iso}

printed : amount_string (brl 1300) ≡ codes "13.00"
unfolding amount_string numeral
printed = refl

parsed : parse_money (codes "13.00") (codes "BRL") ≡ ok (brl 1300)
unfolding parse_money is_valid_iso4217
parsed = refl

parse_money-amount_string_example :
    parse_money (amount_string (brl 1300)) (codes "BRL") ≡ ok (brl 1300)
parse_money-amount_string_example =
    parse_money-amount_string (brl 1300) (omega arith) (omega arith) brl-iso

amount_string-parse_money_example :
    (amount_string (brl 1300) ≡ codes "13.00")
    × (codes "BRL" ≡ codes "BRL")
    × (is_valid_iso4217 (codes "BRL") ≡ true)
    × IsInt64 (brl 1300).cents
amount_string-parse_money_example =
    amount_string-parse_money (codes "13.00") (codes "BRL") {m = brl 1300} parsed
