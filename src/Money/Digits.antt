-- ===== src/Money/Digits.antt =====
-- Decimal numerals: the digits of a number, and the number of a text of digits.
use distributed_wallet_api.Prelude.{
  ℕ, zero, suc, ◌+◌, ◌-◌, ◌*◌, ◌/◌, ◌%◌, ◌≤◌, ◌<◌, ◌≡◌, refl, ◌∙◌, ap, arith, true, false, ◌&&◌,
  ltb, Bool-cases, ◌⊎◌, inl, inr, [], ◌∷◌, ◌++◌, Text, length, length-append,
}
use distributed_wallet_api.Money.Decimal.{
  is_digit, all_digits, starts_with, number_from, numeral_within, numeral,
}

pub number_from-append :
    (n : ℕ) (xs ys : Text) → number_from n (xs ++ ys) ≡ number_from (number_from n xs) ys
number_from-append n [] ys = refl
number_from-append n (x ∷ xs) ys = number_from-append (n * 10 + (x - b'0')) xs ys

pub all_digits-append : (xs ys : Text) → all_digits (xs ++ ys) ≡ (all_digits xs && all_digits ys)
all_digits-append [] ys = refl
all_digits-append (x ∷ xs) ys = ground (arith, all_digits-append xs ys)

-- More rounds than digits change nothing.
numeral_within-rounds : (f g n : ℕ) → n ≤ f → n ≤ g → numeral_within f n ≡ numeral_within g n
numeral_within-rounds zero zero n h k = refl
numeral_within-rounds zero (suc g) n h k = ground arith
numeral_within-rounds (suc f) zero n h k = ground arith
numeral_within-rounds (suc f) (suc g) n h k = elim (Bool-cases (ltb n 10)) [
  | inl t ↦ rw t refl
  | inr t ↦ rw t (
      ap (λ xs. xs ++ (b'0' + n % 10) ∷ [])
        (numeral_within-rounds f g (n / 10) (ground arith) (ground arith)))
]

pub numeral_small : (n : ℕ) → n < 10 → numeral n ≡ (b'0' + n) ∷ []
unfolding numeral
numeral_small zero h = refl
numeral_small (suc n) h = ground arith

pub numeral_step : (n : ℕ) → 10 ≤ n → numeral n ≡ numeral (n / 10) ++ (b'0' + n % 10) ∷ []
unfolding numeral
numeral_step zero h = absurd (omega arith)
numeral_step (suc n) h =
    let big : ltb (suc n) 10 ≡ false = ground arith in
    rw big (
      ap (λ xs. xs ++ (b'0' + suc n % 10) ∷ [])
        (numeral_within-rounds n (suc n / 10) (suc n / 10) (omega arith) (omega arith)))

-- What the numeral of a number is: digits, the number itself, and no leading zero.
pub record IsNumeral (n : ℕ) (s : Text) : Type 0 where
  pub digits : all_digits s ≡ true
  pub value : number_from 0 s ≡ n
  pub long : 1 ≤ length s
  pub canonical : (length s ≡ 1) ⊎ (starts_with b'0' s ≡ false)

one_digit : (n : ℕ) → n < 10 → IsNumeral n ((b'0' + n) ∷ [])
one_digit n h = record {
  digits = ground arith;
  value = omega arith;
  long = omega arith;
  canonical = inl refl;
}

starts_with-append :
    (b : ℕ) (xs ys : Text) → 1 ≤ length xs → starts_with b (xs ++ ys) ≡ starts_with b xs
starts_with-append b [] ys h = absurd (omega arith)
starts_with-append b (x ∷ xs) ys h = refl

starts_with-positive : (n : ℕ) (s : Text) → 1 ≤ n → IsNumeral n s → starts_with b'0' s ≡ false
starts_with-positive n [] h k = refl
starts_with-positive n (x ∷ []) h k = ground (arith, k.value, k.digits)
starts_with-positive n (x ∷ y ∷ s) h k = elim k.canonical [
  | inl e ↦ absurd (omega (arith, e))
  | inr e ↦ e
]

more_digits :
    (n : ℕ) (s : Text) → 10 ≤ n → IsNumeral (n / 10) s → IsNumeral n (s ++ (b'0' + n % 10) ∷ [])
more_digits n s h k =
    let last : is_digit (b'0' + n % 10) ≡ true = ground arith in
    record {
      digits = all_digits-append s ((b'0' + n % 10) ∷ []) ∙ ground (arith, k.digits, last);
      value = number_from-append 0 s ((b'0' + n % 10) ∷ []) ∙ rw k.value (omega arith);
      long = omega (arith, length-append s ((b'0' + n % 10) ∷ []));
      canonical = inr (
          starts_with-append b'0' s ((b'0' + n % 10) ∷ []) k.long
          ∙ starts_with-positive (n / 10) s (omega arith) k);
    }

numeral_within-IsNumeral : (rounds n : ℕ) → n ≤ rounds → IsNumeral n (numeral_within rounds n)
numeral_within-IsNumeral zero n h = one_digit n (omega arith)
numeral_within-IsNumeral (suc rounds) n h = elim (Bool-cases (ltb n 10)) [
  | inl t ↦ rw t (one_digit n (ground arith))
  | inr t ↦ rw t (
      more_digits n (numeral_within rounds (n / 10)) (ground arith)
        (numeral_within-IsNumeral rounds (n / 10) (ground arith)))
]

pub numeral-IsNumeral : (n : ℕ) → IsNumeral n (numeral n)
unfolding numeral
numeral-IsNumeral n = numeral_within-IsNumeral n n (omega arith)
