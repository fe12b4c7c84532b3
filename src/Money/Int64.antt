-- ===== src/Money/Int64.antt =====
-- Go's int64: an integer, kept in its range by two's complement wrap-around.
use distributed_wallet_api.Prelude.{
  ℕ, ◌-◌, ◌%◌, ◌≡◌, arith, ltb, if◌then◌else◌, ℤ, pos, negsuc, ◌+ℤ◌, ◌-ℤ◌, ◌≤ℤ◌,
}

abbrev pub two63 : ℕ
two63 = 9223372036854775808

abbrev pub two64 : ℕ
two64 = 18446744073709551616

-- `math.MinInt64`
abbrev pub min_int64 : ℤ
min_int64 = negsuc 9223372036854775807

abbrev pub max_int64 : ℤ
max_int64 = pos 9223372036854775807

abbrev pub IsInt64 : ℤ → Type 0
IsInt64 x = (min_int64 ≤ℤ x) × (x ≤ℤ max_int64)

-- The value that int64 arithmetic gives for the exact result `x`.
unfoldable pub wrap64 : ℤ → ℤ
wrap64 (pos n) = let r = n % two64 in if ltb r two63 then pos r else negsuc (two64 - 1 - r)
wrap64 (negsuc n) = let r = n % two64 in if ltb r two63 then negsuc r else pos (two64 - 1 - r)

pub wrap64-IsInt64 : (x : ℤ) → IsInt64 (wrap64 x)
unfolding wrap64
wrap64-IsInt64 (pos n) = ground arith
wrap64-IsInt64 (negsuc n) = ground arith

pub wrap64_exact : (x : ℤ) → IsInt64 x → wrap64 x ≡ x
unfolding wrap64
wrap64_exact (pos n) h = ground arith
wrap64_exact (negsuc n) h = ground arith

-- Above the range by less than 2^64 the result is 2^64 too small, and below it too large.
pub wrap64_above :
    (x : ℤ) → pos two63 ≤ℤ x → x ≤ℤ max_int64 +ℤ pos two64 → wrap64 x ≡ x -ℤ pos two64
unfolding wrap64 ◌+ℤ◌ ◌-ℤ◌
wrap64_above (pos n) h k = ground arith
wrap64_above (negsuc n) h k = ground arith

pub wrap64_below :
    (x : ℤ) → x ≤ℤ negsuc two63 → min_int64 -ℤ pos two64 ≤ℤ x → wrap64 x ≡ x +ℤ pos two64
unfolding wrap64 ◌+ℤ◌ ◌-ℤ◌
wrap64_below (pos n) h k = ground arith
wrap64_below (negsuc n) h k = ground arith
