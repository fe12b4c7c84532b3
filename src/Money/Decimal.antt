-- ===== src/Money/Decimal.antt =====
-- `ParseMoney` and `AmountString` of domain/money.go, with the decimal numerals that they take from
-- strconv.
use distributed_wallet_api.Prelude.{
  ℕ, zero, suc, ◌+◌, ◌-◌, ◌*◌, ◌/◌, ◌%◌, Bool, true, false, not, ◌&&◌, ◌||◌, ltb, leb, ◌==◌,
  if◌then◌else◌, Option, none, some, [], ◌∷◌, ◌++◌, ℤ, pos, negsuc, Text, length, take, drop,
  index_byte, is_empty, Result, ok, err, ◌>>=◌, ◌>>◌, fail_if, invalid_currency_format,
  negative_amount, invalid_amount,
}
use distributed_wallet_api.Money.Defs.{Money, is_valid_iso4217}

abbrev pub scale : ℕ
scale = 2

abbrev pub is_digit : ℕ → Bool
is_digit c = not (ltb c b'0' || ltb b'9' c)

-- The loop of `isDigits`.
abbrev pub all_digits : Text → Bool
all_digits [] = true
all_digits (c ∷ s) = is_digit c && all_digits s

abbrev pub is_digits : Text → Bool
is_digits text = not (is_empty text) && all_digits text

abbrev pub starts_with : ℕ → Text → Bool
starts_with b [] = false
starts_with b (c ∷ _) = c == b

abbrev pub is_canonical_units : Text → Bool
is_canonical_units units =
    if not (is_digits units) then false else length units == 1 || not (starts_with b'0' units)

-- The number that digits stand for, read from the left after the number `n`.
abbrev pub number_from : ℕ → Text → ℕ
number_from n [] = n
number_from n (c ∷ s) = number_from (n * 10 + (c - b'0')) s

-- `strconv.ParseInt(text, 10, 64)` on digits: an error for a number above the largest int64.
abbrev pub parse_int : Text → Result ℤ
parse_int text =
    if ltb 9223372036854775807 (number_from 0 text)
    then err invalid_amount
    else ok (pos (number_from 0 text))

-- The rest of `ParseMoney` from the position of the separator on.
abbrev pub parse_amount : Text → Text → Option ℕ → Result Money
parse_amount amount currency none = err invalid_amount
parse_amount amount currency (some separator) = do
  fail_if (ltb separator 1 || not (length amount - separator - 1 == scale)) invalid_amount
  let units = take separator amount
  let fraction = drop (separator + 1) amount
  fail_if (not (is_canonical_units units) || not (is_digits fraction)) invalid_amount
  cents ← parse_int (units ++ fraction)
  ok (record { cents = cents; currency = currency })

unfoldable pub parse_money : Text → Text → Result Money
parse_money amount currency = do
  fail_if (not (is_valid_iso4217 currency)) invalid_currency_format
  fail_if (starts_with b'-' amount) negative_amount
  parse_amount amount currency (index_byte amount b'.')

-- The digits of a number, with more rounds than it has digits.
abbrev pub numeral_within : ℕ → ℕ → Text
numeral_within zero n = (b'0' + n) ∷ []
numeral_within (suc rounds) n =
    let rest = numeral_within rounds (n / 10) in
    if ltb n 10 then (b'0' + n) ∷ [] else rest ++ (b'0' + n % 10) ∷ []

-- `strconv.FormatInt(n, 10)` for n ≥ 0.
unfoldable pub numeral : ℕ → Text
numeral n = numeral_within n n

-- The loop that pads to `scale + 1` digits: never more than `scale` rounds.
abbrev pub pad_within : ℕ → Text → Text
pad_within zero digits = digits
pad_within (suc rounds) digits =
    if leb (length digits) scale then pad_within rounds (b'0' ∷ digits) else digits

abbrev pub with_separator : Text → Text
with_separator digits =
    take (length digits - scale) digits ++ b'.' ∷ drop (length digits - scale) digits

-- `digits[1:]` of a negative number is the numeral of its absolute value.
unfoldable pub amount_string : Money → Text
unfolding numeral
amount_string m = elim m.cents [
  | pos n ↦ with_separator (pad_within (scale + 1) (numeral n))
  | negsuc n ↦ b'-' ∷ with_separator (pad_within (scale + 1) (numeral (n + 1)))
]
