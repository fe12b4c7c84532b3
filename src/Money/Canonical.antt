-- ===== src/Money/Canonical.antt =====
-- The texts that `ParseMoney` accepts.
use distributed_wallet_api.Prelude.{
  ℕ, zero, suc, ◌+◌, ◌-◌, ◌*◌, ◌/◌, ◌%◌, ◌≤◌, ◌≡◌, ◌≢◌, refl, sym, ◌∙◌, ap, arith, true, ◌==◌,
  ==_iff, Bool-cases, Option-cases, inl, inr, none, some, [], ◌∷◌, ◌++◌, pos, Text, length, take,
  drop, index_byte, append_assoc, append_nil, some_eq, some_or_none, ok,
}
use distributed_wallet_api.Money.Int64.{IsInt64}
use distributed_wallet_api.Money.Defs.{Money, is_valid_iso4217}
use distributed_wallet_api.Money.Decimal.{
  is_digit, all_digits, is_canonical_units, number_from, parse_amount, parse_money, numeral,
  amount_string,
}
use distributed_wallet_api.Money.Digits.{numeral_small, numeral_step, number_from-append}
use distributed_wallet_api.Money.RoundTrip.{spelled, spelled_lem}

-- Further digits after a positive number stand at the end of its numeral.
numeral-number_from :
    (n : ℕ) (s : Text) → 1 ≤ n → all_digits s ≡ true → numeral (number_from n s) ≡ numeral n ++ s
numeral-number_from n [] h k = sym (append_nil (numeral n))
numeral-number_from n (c ∷ s) h k =
    let quotient : (n * 10 + (c - b'0')) / 10 ≡ n = ground arith in
    let last : b'0' + (n * 10 + (c - b'0')) % 10 ≡ c = ground arith in
    numeral-number_from (n * 10 + (c - b'0')) s (omega arith) (ground arith)
    ∙ rw (numeral_step (n * 10 + (c - b'0')) (omega arith), quotient, last)
        (append_assoc (numeral n) (c ∷ []) s)

numeral-canonical : (s : Text) → is_canonical_units s ≡ true → numeral (number_from 0 s) ≡ s
numeral-canonical [] h = cc
numeral-canonical (c ∷ []) h =
    let back : b'0' + (c - b'0') ≡ c = ground arith in
    let start : 0 * 10 + (c - b'0') ≡ c - b'0' = omega arith in
    rw (start, numeral_small (c - b'0') (ground arith), back) refl
numeral-canonical (c ∷ d ∷ s) h =
    let back : b'0' + (c - b'0') ≡ c = ground arith in
    let start : 0 * 10 + (c - b'0') ≡ c - b'0' = omega arith in
    ap (λ n. numeral (number_from n (d ∷ s))) start
    ∙ numeral-number_from (c - b'0') (d ∷ s) (ground arith) (ground arith)
    ∙ rw (numeral_small (c - b'0') (ground arith), back) refl

index_byte-split :
    (s : Text) (b : ℕ) {i : ℕ} → index_byte s b ≡ some i → s ≡ take i s ++ b ∷ drop (suc i) s
index_byte-split [] b e = cc
index_byte-split (c ∷ s) b {i} e = elim (Bool-cases (c == b)) [
  | inl t ↦
      let first : 0 ≡ i = some_eq (rw t at e) in rw (← first) (ap (λ x. x ∷ s) ((==_iff c b).0 t))
  | inr f ↦ elim (Option-cases (index_byte s b)) [
    | inl g ↦ absurd (some_or_none (sym (rw (f, g) at e)))
    | inr (j, g) ↦
        let later : suc j ≡ i = some_eq (rw (f, g) at e) in
        rw (← later) (ap (λ x. c ∷ x) (index_byte-split s b g))
  ]
]

two_digits : (s : Text) → length s ≡ 2 → (a : ℕ) × (b : ℕ) × (s ≡ a ∷ b ∷ [])
two_digits [] h = absurd (omega (arith, h))
two_digits (a ∷ []) h = absurd (omega (arith, h))
two_digits (a ∷ b ∷ []) h = (a, b, refl)
two_digits (a ∷ b ∷ c ∷ s) h = absurd (omega (arith, h))

spelled_back :
    (units : Text) (a b : ℕ)
    → is_canonical_units units ≡ true
    → is_digit a ≡ true
    → is_digit b ≡ true
    → spelled (number_from 0 (units ++ a ∷ b ∷ [])) ≡ units ++ b'.' ∷ a ∷ b ∷ []
spelled_back units a b h p q =
    let u = number_from 0 units in
    let n = (u * 10 + (a - b'0')) * 10 + (b - b'0') in
    let hundreds : n / 100 ≡ u = ground arith in
    let tens : b'0' + n / 10 % 10 ≡ a = ground arith in
    let ones : b'0' + n % 10 ≡ b = ground arith in
    rw (number_from-append 0 units (a ∷ b ∷ []), hundreds, tens, ones, numeral-canonical units h)
      refl

-- What the checks of `ParseMoney` say of the text from its separator on.
record Accepted (amount currency' : Text) (separator : ℕ) (m : Money) : Type 0 where
  units : is_canonical_units (take separator amount) ≡ true
  fraction : all_digits (drop (suc separator) amount) ≡ true
  long : length amount - separator - 1 ≡ 2
  currency : m.currency ≡ currency'
  cents : m.cents ≡ pos (number_from 0 (take separator amount ++ drop (suc separator) amount))
  bound : number_from 0 (take separator amount ++ drop (suc separator) amount) ≤ 9223372036854775807

parse_amount-inv :
    (amount currency : Text) (separator : ℕ) {m : Money}
    → parse_amount amount currency (some separator) ≡ ok m
    → Accepted amount currency separator m
parse_amount-inv amount currency separator {m} e =
    let next : separator + 1 ≡ suc separator = omega arith in let e' = rw next at e in ground arith

drop-length : (k : ℕ) (s : Text) → length (drop k s) ≡ length s - k
drop-length zero s = omega arith
drop-length (suc k) [] = omega arith
drop-length (suc k) (c ∷ s) = omega (arith, drop-length k s)

amount_string-Accepted :
    (amount currency : Text) (separator : ℕ) (m : Money)
    → index_byte amount b'.' ≡ some separator
    → Accepted amount currency separator m
    → amount_string m ≡ amount
unfolding amount_string
amount_string-Accepted amount currency separator m f h =
    let parts = index_byte-split amount b'.' f in
    let (a, b, two) =
      two_digits (drop (suc separator) amount)
        (omega (arith, h.long, drop-length (suc separator) amount)) in
    let digits = rw two at h.fraction in
    let units = take separator amount in
    let fraction = drop (suc separator) amount in
    let whole : spelled (number_from 0 (units ++ fraction)) ≡ units ++ b'.' ∷ fraction =
      rw two (spelled_back units a b h.units (ground (arith, digits)) (ground (arith, digits))) in
    rw h.cents (spelled_lem (number_from 0 (units ++ fraction)) ∙ whole ∙ sym parts)

parse_money-inv :
    (amount currency : Text) {m : Money}
    → parse_money amount currency ≡ ok m
    → (is_valid_iso4217 currency ≡ true)
      × (parse_amount amount currency (index_byte amount b'.') ≡ ok m)
unfolding parse_money
parse_money-inv amount currency e = ground arith

parse_amount-none : (amount currency : Text) {m : Money} → parse_amount amount currency none ≢ ok m
parse_amount-none amount currency e = cc

-- `ParseMoney` accepts canonical texts alone: an accepted text is the one that `AmountString`
-- prints of the result, which has the requested currency, of three capital letters, and an int64
-- amount.
pub amount_string-parse_money :
    (amount currency : Text) {m : Money}
    → parse_money amount currency ≡ ok m
    → (amount_string m ≡ amount)
      × (m.currency ≡ currency)
      × (is_valid_iso4217 currency ≡ true)
      × IsInt64 m.cents
amount_string-parse_money amount currency {m} e =
    let (iso, parsed) = parse_money-inv amount currency e in
    elim (Option-cases (index_byte amount b'.')) [
      | inl f ↦ absurd (parse_amount-none amount currency (rw f at parsed))
      | inr (separator, f) ↦
          let h = parse_amount-inv amount currency separator (rw f at parsed) in
          (
            amount_string-Accepted amount currency separator m f h,
            h.currency,
            iso,
            rw h.cents (omega arith, omega (arith, h.bound)),
          )
    ]
