-- ===== src/Money/RoundTrip.antt =====
-- `ParseMoney` and `AmountString` against each other.
use distributed_wallet_api.Prelude.{
  ℕ, suc, ◌+◌, ◌-◌, ◌*◌, ◌/◌, ◌%◌, ◌≤◌, ◌<◌, ◌≡◌, refl, ◌∙◌, ap, arith, true, false, ltb, leb, ◌==◌,
  if◌then◌else◌, Bool-cases, inl, inr, some, [], ◌∷◌, ◌++◌, ℤ, pos, negsuc, ◌≤ℤ◌, ◌<ℤ◌, Text,
  length, drop, index_byte, length-append, take-append, drop-append, append_assoc, ok, err,
  negative_amount, invalid_amount,
}
use distributed_wallet_api.Money.Int64.{max_int64}
use distributed_wallet_api.Money.Defs.{Money, is_valid_iso4217}
use distributed_wallet_api.Money.Decimal.{
  is_digit, all_digits, is_canonical_units, starts_with, number_from, parse_amount, parse_money,
  numeral, pad_within, with_separator, amount_string,
}
use distributed_wallet_api.Money.Digits.{
  IsNumeral, numeral-IsNumeral, numeral_small, numeral_step, number_from-append,
}

separated : (s : Text) (a b : ℕ) → with_separator (s ++ a ∷ b ∷ []) ≡ s ++ b'.' ∷ a ∷ b ∷ []
separated s a b =
    let long : length (s ++ a ∷ b ∷ []) - 2 ≡ length s =
      omega (arith, length-append s (a ∷ b ∷ [])) in
    rw (long, take-append s (a ∷ b ∷ []), drop-append s (a ∷ b ∷ [])) refl

pad_enough : (s : Text) → 3 ≤ length s → pad_within 3 s ≡ s
pad_enough s h = let enough : leb (length s) 2 ≡ false = ground arith in rw enough refl

-- The units, the separator and two digits.
abbrev pub spelled : ℕ → Text
spelled n = numeral (n / 100) ++ b'.' ∷ (b'0' + n / 10 % 10) ∷ (b'0' + n % 10) ∷ []

-- The print of an amount that is not negative.
pub spelled_lem : (n : ℕ) → with_separator (pad_within 3 (numeral n)) ≡ spelled n
spelled_lem n = elim (Bool-cases (ltb n 10)) [
  | inl small ↦
      let below : n < 10 = ground arith in
      let units : n / 100 ≡ 0 = omega arith in
      let tens : n / 10 % 10 ≡ 0 = omega arith in
      let ones : n % 10 ≡ n = omega arith in
      rw (numeral_small n below, units, tens, ones, numeral_small 0 (omega arith)) refl
  | inr t ↦ elim (Bool-cases (ltb n 100)) [
    | inl small ↦
        let below : n < 100 = ground arith in
        let units : n / 100 ≡ 0 = omega arith in
        let tens : n / 10 % 10 ≡ n / 10 = omega arith in
        rw
          (
            numeral_step n (ground arith),
            numeral_small (n / 10) (omega arith),
            units,
            tens,
            numeral_small 0 (omega arith),
          )
          refl
    | inr big ↦
        let hundredth : n / 10 / 10 ≡ n / 100 = omega arith in
        let twice : numeral n ≡ numeral (n / 100) ++ (b'0' + n / 10 % 10) ∷ (b'0' + n % 10) ∷ [] =
          numeral_step n (ground arith)
          ∙ ap (λ s. s ++ (b'0' + n % 10) ∷ []) (numeral_step (n / 10) (ground arith))
          ∙ append_assoc (numeral (n / 10 / 10)) ((b'0' + n / 10 % 10) ∷ []) ((b'0' + n % 10) ∷ [])
          ∙ ap (λ k. numeral k ++ (b'0' + n / 10 % 10) ∷ (b'0' + n % 10) ∷ []) hundredth in
        let long = (numeral-IsNumeral (n / 100)).long in
        rw twice (
          ap with_separator (
            pad_enough _ (
              omega (
                arith,
                long,
                length-append (numeral (n / 100)) ((b'0' + n / 10 % 10) ∷ (b'0' + n % 10) ∷ []),
              )))
          ∙ separated (numeral (n / 100)) (b'0' + n / 10 % 10) (b'0' + n % 10))
  ]
]

-- Before the separator there are digits only, so it is the first of its kind.
index_byte-digits :
    (s rest : Text) → all_digits s ≡ true → index_byte (s ++ b'.' ∷ rest) b'.' ≡ some (length s)
index_byte-digits [] rest h = refl
index_byte-digits (c ∷ s) rest h =
    let here : (c == b'.') ≡ false = ground arith in
    rw (here, index_byte-digits s rest (ground arith)) refl

digits_sign :
    (s rest : Text) → all_digits s ≡ true → 1 ≤ length s → starts_with b'-' (s ++ rest) ≡ false
digits_sign [] rest h k = absurd (omega arith)
digits_sign (c ∷ s) rest h k = ground arith

canonical_units : (n : ℕ) (s : Text) → IsNumeral n s → is_canonical_units s ≡ true
canonical_units n [] h = absurd (omega (arith, h.long))
canonical_units n (c ∷ s) h = elim h.canonical [
  | inl e ↦ ground (arith, h.digits, e)
  | inr e ↦ ground (arith, h.digits, e)
]

after_separator : (s : Text) (a b : ℕ) → drop (suc (length s)) (s ++ b'.' ∷ a ∷ b ∷ []) ≡ a ∷ b ∷ []
after_separator [] a b = refl
after_separator (c ∷ s) a b = after_separator s a b

-- The parse of units and two digits.
parse_amount_lem :
    (n : ℕ) (s : Text) (a b : ℕ) (currency : Text)
    → IsNumeral n s
    → is_digit a ≡ true
    → is_digit b ≡ true
    → parse_amount (s ++ b'.' ∷ a ∷ b ∷ []) currency (some (length s)) ≡ (
        if ltb 9223372036854775807 ((n * 10 + (a - b'0')) * 10 + (b - b'0'))
        then err invalid_amount
        else ok
            (record { cents = pos ((n * 10 + (a - b'0')) * 10 + (b - b'0')); currency = currency }))
parse_amount_lem n s a b currency h p q =
    let value : number_from 0 (s ++ a ∷ b ∷ []) ≡ (n * 10 + (a - b'0')) * 10 + (b - b'0') =
      number_from-append 0 s (a ∷ b ∷ []) ∙ ap (λ k. number_from k (a ∷ b ∷ [])) h.value in
    let next : length s + 1 ≡ suc (length s) = omega arith in
    rw
      (
        next,
        length-append s (b'.' ∷ a ∷ b ∷ []),
        take-append s (b'.' ∷ a ∷ b ∷ []),
        after_separator s a b,
        canonical_units n s h,
        value,
      )
      (ground (arith, p, q, h.long))

pub parse_money-spelled :
    (n : ℕ) (currency : Text)
    → n ≤ 9223372036854775807
    → is_valid_iso4217 currency ≡ true
    → parse_money (spelled n) currency ≡ ok (record { cents = pos n; currency = currency })
unfolding parse_money
parse_money-spelled n currency h iso =
    let units = numeral-IsNumeral (n / 100) in
    let s = numeral (n / 100) in
    let a = b'0' + n / 10 % 10 in
    let b = b'0' + n % 10 in
    let whole : (n / 100 * 10 + (a - b'0')) * 10 + (b - b'0') ≡ n = omega arith in
    rw
      (
        iso,
        digits_sign s (b'.' ∷ a ∷ b ∷ []) units.digits units.long,
        index_byte-digits s (a ∷ b ∷ []) units.digits,
        parse_amount_lem (n / 100) s a b currency units (ground arith) (ground arith),
      )
      (rw whole (ground arith))

parse_money-cents :
    (cents : ℤ) (currency : Text)
    → pos 0 ≤ℤ cents
    → cents ≤ℤ max_int64
    → is_valid_iso4217 currency ≡ true
    → parse_money (amount_string (record { cents = cents; currency = currency })) currency
      ≡ ok (record { cents = cents; currency = currency })
unfolding amount_string
parse_money-cents (pos n) currency low high iso =
    rw (spelled_lem n) (parse_money-spelled n currency (omega (arith, high)) iso)
parse_money-cents (negsuc n) currency low high iso = absurd (omega (arith, low))

-- The text that `AmountString` prints of an int64 amount that is not negative, in a currency of
-- three capital letters, is one that `ParseMoney` accepts, and it parses to the amount that was
-- printed.
pub parse_money-amount_string :
    (m : Money)
    → pos 0 ≤ℤ m.cents
    → m.cents ≤ℤ max_int64
    → is_valid_iso4217 m.currency ≡ true
    → parse_money (amount_string m) m.currency ≡ ok m
parse_money-amount_string m low high iso = parse_money-cents m.cents m.currency low high iso

-- The text of a negative amount, in a currency of three capital letters, is refused as a negative
-- amount.
pub parse_money-negative :
    (m : Money)
    → m.cents <ℤ pos 0
    → is_valid_iso4217 m.currency ≡ true
    → parse_money (amount_string m) m.currency ≡ err negative_amount
unfolding parse_money amount_string
parse_money-negative m low iso = go m.cents low
  where
    go :
        (cents : ℤ)
        → cents <ℤ pos 0
        → parse_money (amount_string (record m { cents = cents })) m.currency ≡ err negative_amount
    go (pos n) h = absurd (omega (arith, h))
    go (negsuc n) h = rw iso refl
