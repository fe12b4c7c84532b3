-- ===== src/Money/Defs.antt =====
-- Constructors, validation, arithmetic and comparison of domain/money.go.
use distributed_wallet_api.Prelude.{
  Bool, true, false, not, ◌&&◌, ◌||◌, [], ◌∷◌, ltb, ◌==◌, if◌then◌else◌, ℤ, pos, negsuc, ◌+ℤ◌, ◌-ℤ◌,
  ltb_ℤ, eqb_ℤ, Text, length, text_eq, is_empty, Result, ok, err, ◌>>=◌, ◌>>◌, fail_if,
  invalid_currency_format, currency_mismatch, arithmetic_overflow, uninitialized_money,
}
use distributed_wallet_api.Money.Int64.{wrap64, min_int64}

pub record Money : Type 0 where
  pub cents : ℤ  -- int64
  pub currency : Text

-- `Money{}`, the zero value, which no constructor returns.
abbrev pub no_money : Money
no_money = record { cents = pos 0; currency = [] }

all_upper : Text → Bool
all_upper [] = true
all_upper (c ∷ s) = if ltb c b'A' || ltb b'Z' c then false else all_upper s

unfoldable pub is_valid_iso4217 : Text → Bool
unfolding all_upper
is_valid_iso4217 currency = if not (length currency == 3) then false else all_upper currency

unfoldable pub new_money : ℤ → Text → Result Money
new_money cents currency =
    if not (is_valid_iso4217 currency)
    then err invalid_currency_format
    else ok (record { cents = cents; currency = currency })

-- `Zero`
unfoldable pub zero_money : Text → Result Money
unfolding new_money
zero_money currency = new_money (pos 0) currency

unfoldable pub validate : Money → Result (Unit {0})
validate m = if is_empty m.currency then err uninitialized_money else ok tt

unfoldable pub require_same_currency : Money → Money → Result (Unit {0})
unfolding validate
require_same_currency m other = do
  validate m
  validate other
  fail_if (not (text_eq m.currency other.currency)) currency_mismatch

unfoldable pub add : Money → Money → Result Money
add m other = do
  require_same_currency m other
  let sum = wrap64 (m.cents +ℤ other.cents)
  fail_if
      ((ltb_ℤ (pos 0) other.cents && ltb_ℤ sum m.cents)
        || (ltb_ℤ other.cents (pos 0) && ltb_ℤ m.cents sum))
      arithmetic_overflow
  ok (record { cents = sum; currency = m.currency })

unfoldable pub subtract : Money → Money → Result Money
subtract m other = do
  require_same_currency m other
  let diff = wrap64 (m.cents -ℤ other.cents)
  fail_if
      ((ltb_ℤ other.cents (pos 0) && ltb_ℤ diff m.cents)
        || (ltb_ℤ (pos 0) other.cents && ltb_ℤ m.cents diff))
      arithmetic_overflow
  ok (record { cents = diff; currency = m.currency })

unfoldable pub negate : Money → Result Money
negate m = do
  validate m
  fail_if (eqb_ℤ m.cents min_int64) arithmetic_overflow
  ok (record { cents = wrap64 (pos 0 -ℤ m.cents); currency = m.currency })

-- The int that `Compare` returns: -1, 1 or 0.
unfoldable pub compare_money : Money → Money → Result ℤ
compare_money m other = do
  require_same_currency m other
  if ltb_ℤ m.cents other.cents
      then ok (negsuc 0)
      else if ltb_ℤ other.cents m.cents
      then ok (pos 1)
      else ok (pos 0)

unfoldable pub equals : Money → Money → Result Bool
equals m other = do result ← compare_money m other; ok (eqb_ℤ result (pos 0))

abbrev pub is_zero : Money → Bool
is_zero m = eqb_ℤ m.cents (pos 0)

abbrev pub is_negative : Money → Bool
is_negative m = ltb_ℤ m.cents (pos 0)

abbrev pub is_positive : Money → Bool
is_positive m = ltb_ℤ (pos 0) m.cents
