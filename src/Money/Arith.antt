-- ===== src/Money/Arith.antt =====
-- The arithmetic of domain/money.go beside that of the integers.
use distributed_wallet_api.Prelude.{
  ◌≡◌, ◌≢◌, inl, inr, Bool, true, false, not, arith, if◌then◌else◌, ℤ, pos, negsuc, ◌+ℤ◌, ◌-ℤ◌,
  ◌≤ℤ◌, ltb_ℤ, int_laws, text_eq_iff, is_empty, Result, ok, err, arithmetic_overflow,
  currency_mismatch, Text, +ℤ_parts, -ℤ_parts, ◌&&◌, ◌||◌, Bool-cases, fail_if, ◌>>◌, ◌↔◌,
}
use distributed_wallet_api.Money.Int64.{
  IsInt64, wrap64, wrap64_exact, wrap64_above, wrap64_below, min_int64, max_int64, two63, two64,
}
use distributed_wallet_api.Money.Defs.{
  Money, validate, require_same_currency, add, subtract, negate, compare_money, equals,
}

-- A value that a constructor has returned: its currency is set and its amount is an int64.
pub record IsMoney (m : Money) : Type 0 where
  pub initialized : is_empty m.currency ≡ false
  pub in_range : IsInt64 m.cents

-- Operands that a constructor has returned, of one currency.
pub record AreAlike (m other : Money) : Type 0 where
  pub left : IsMoney m
  pub right : IsMoney other
  pub same : m.currency ≡ other.currency

pub require_same_currency_ok :
    (m other : Money) → AreAlike m other → require_same_currency m other ≡ ok tt
unfolding require_same_currency
require_same_currency_ok m other h = ground (arith, text_eq_iff m.currency other.currency)

pub require_same_currency_mismatch :
    (m other : Money)
    → IsMoney m
    → IsMoney other
    → m.currency ≢ other.currency
    → require_same_currency m other ≡ err currency_mismatch
unfolding require_same_currency
require_same_currency_mismatch m other h k ne =
    ground (arith, text_eq_iff m.currency other.currency)

-- The specification of int64 arithmetic: the exact integer if an int64 can hold it, and the
-- overflow error if not.
abbrev pub fits : ℤ → Bool
fits x = not (ltb_ℤ x min_int64) && not (ltb_ℤ max_int64 x)

abbrev pub checked : ℤ → Text → Result Money
checked x currency =
    if fits x then ok (record { cents = x; currency = currency }) else err arithmetic_overflow

fits-IsInt64 : (x : ℤ) → fits x ≡ true → IsInt64 x
fits-IsInt64 x h = ground arith

-- What wrap-around gives for a result that is at most 2^64 out of range.
data Wrapped (x : ℤ) : Type 0 where
  exact : fits x ≡ true → wrap64 x ≡ x → Wrapped x
  above : fits x ≡ false → pos two63 ≤ℤ x → wrap64 x ≡ x -ℤ pos two64 → Wrapped x
  below : fits x ≡ false → x ≤ℤ negsuc two63 → wrap64 x ≡ x +ℤ pos two64 → Wrapped x

wrap64-Wrapped : (x : ℤ) → negsuc two64 ≤ℤ x → x ≤ℤ pos two64 → Wrapped x
unfolding ◌+ℤ◌ ◌-ℤ◌
wrap64-Wrapped x low high = elim (Bool-cases (fits x)) [
  | inl f ↦ exact f (wrap64_exact x (fits-IsInt64 x f))
  | inr f ↦ elim (Bool-cases (ltb_ℤ x (pos 0))) [
    | inl neg ↦ below f (ground arith) (wrap64_below x (ground arith) (ground arith))
    | inr non ↦ above f (ground arith) (wrap64_above x (ground arith) (ground arith))
  ]
]

-- The overflow test of `Add` and its result, on the exact sum.
add_cents :
    (a b : ℤ) (c : Text)
    → IsInt64 a
    → IsInt64 b
    → Wrapped (a +ℤ b)
    → (let sum = wrap64 (a +ℤ b) in
        fail_if
          ((ltb_ℤ (pos 0) b && ltb_ℤ sum a) || (ltb_ℤ b (pos 0) && ltb_ℤ a sum))
          arithmetic_overflow
        >> ok (record { cents = sum; currency = c }))
      ≡ checked (a +ℤ b) c
add_cents a b c ha hb (exact f e) = rw (e, f) (ground (arith, +ℤ_parts a b))
add_cents a b c ha hb (above f l e) =
    rw (e, f) (ground (arith, +ℤ_parts a b, -ℤ_parts (a +ℤ b) (pos two64)))
add_cents a b c ha hb (below f l e) =
    rw (e, f) (ground (arith, +ℤ_parts a b, +ℤ_parts (a +ℤ b) (pos two64)))

subtract_cents :
    (a b : ℤ) (c : Text)
    → IsInt64 a
    → IsInt64 b
    → Wrapped (a -ℤ b)
    → (let diff = wrap64 (a -ℤ b) in
        fail_if
          ((ltb_ℤ b (pos 0) && ltb_ℤ diff a) || (ltb_ℤ (pos 0) b && ltb_ℤ a diff))
          arithmetic_overflow
        >> ok (record { cents = diff; currency = c }))
      ≡ checked (a -ℤ b) c
subtract_cents a b c ha hb (exact f e) = rw (e, f) (ground (arith, -ℤ_parts a b))
subtract_cents a b c ha hb (above f l e) =
    rw (e, f) (ground (arith, -ℤ_parts a b, -ℤ_parts (a -ℤ b) (pos two64)))
subtract_cents a b c ha hb (below f l e) =
    rw (e, f) (ground (arith, -ℤ_parts a b, +ℤ_parts (a -ℤ b) (pos two64)))

-- For two int64 amounts of one currency, `Add` is integer addition where the sum is an int64, and
-- the overflow error where it is not: its test on the wrapped sum decides exactly that.
pub add-checked :
    (m other : Money) → AreAlike m other → add m other ≡ checked (m.cents +ℤ other.cents) m.currency
unfolding add
add-checked m other h = rw (require_same_currency_ok m other h) (
    add_cents m.cents other.cents m.currency h.left.in_range h.right.in_range
      (wrap64-Wrapped (m.cents +ℤ other.cents) (omega int_laws) (omega int_laws)))

-- For two int64 amounts of one currency, `Subtract` is integer subtraction where the difference is
-- an int64, and the overflow error where it is not.
pub subtract-checked :
    (m other : Money)
    → AreAlike m other
    → subtract m other ≡ checked (m.cents -ℤ other.cents) m.currency
unfolding subtract
subtract-checked m other h = rw (require_same_currency_ok m other h) (
    subtract_cents m.cents other.cents m.currency h.left.in_range h.right.in_range
      (wrap64-Wrapped (m.cents -ℤ other.cents) (omega int_laws) (omega int_laws)))

-- `Negate` of an initialized int64 amount is its negation where that is an int64, and the overflow
-- error on `math.MinInt64` alone.
pub negate-checked : (m : Money) → IsMoney m → negate m ≡ checked (pos 0 -ℤ m.cents) m.currency
unfolding negate validate
negate-checked m h = elim (Bool-cases (fits (pos 0 -ℤ m.cents))) [
  | inl f ↦
      rw (wrap64_exact (pos 0 -ℤ m.cents) (fits-IsInt64 (pos 0 -ℤ m.cents) f))
        (ground (arith, -ℤ_parts (pos 0) m.cents))
  | inr f ↦ ground (arith, -ℤ_parts (pos 0) m.cents)
]

-- `Add`, `Subtract`, `Compare` and `Equals` refuse two initialized amounts of different currencies
-- with the currency mismatch.
pub mismatch_refused :
    (m other : Money)
    → IsMoney m
    → IsMoney other
    → m.currency ≢ other.currency
    → (add m other ≡ err currency_mismatch)
      × (subtract m other ≡ err currency_mismatch)
      × (compare_money m other ≡ err currency_mismatch)
      × (equals m other ≡ err currency_mismatch)
unfolding add subtract compare_money equals
mismatch_refused m other h k ne =
    let e = require_same_currency_mismatch m other h k ne in (rw e, rw e, rw e, rw e)

-- `Equals` decides equality of two amounts of one currency.
pub equals_iff : (m other : Money) → AreAlike m other → (equals m other ≡ ok true) ↔ (m ≡ other)
unfolding equals compare_money
equals_iff m other h = rw (require_same_currency_ok m other h) (ground (arith), ground (arith))
