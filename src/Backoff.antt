-- ===== src/Backoff.antt =====
-- The wait before the next attempt to publish an event: `backoffDelay` of
-- cmd/internal/infra/worker/outbox-publisher.go. A duration is an int64 of nanoseconds.
use distributed_wallet_api.Prelude.{
  ◌<◌, ◌≤◌, ℕ, ◌+◌, ◌-◌, ◌*◌, ◌^◌, ◌≡◌, arith, ltb, ◌||◌, if◌then◌else◌, ℤ, pos, negsuc, ◌≤ℤ◌,
  ltb_ℤ,
}
use native.Mathlib.Nat.{pow-le-pow_right, le_trans, mul-le-mul_left}
use distributed_wallet_api.Money.{wrap64, wrap64_exact}

abbrev max_shift : ℕ
max_shift = 32

-- `base << shift` on int64.
unfoldable pub shift_left : ℤ → ℕ → ℤ
shift_left (pos n) shift = wrap64 (pos (n * 2 ^ shift))
shift_left (negsuc n) shift = wrap64 (negsuc ((n + 1) * 2 ^ shift - 1))

-- `attempts - 1`, for attempts raised to 1 at least.
abbrev shift_of : ℤ → ℕ
shift_of (pos n) = n - 1
shift_of (negsuc n) = 0

abbrev capped : ℤ → ℤ → ℤ
capped delay max = if ltb_ℤ delay (pos 1) || ltb_ℤ max delay then max else delay

unfoldable pub backoff_delay : ℤ → ℤ → ℤ → ℤ
unfolding shift_left
backoff_delay attempts base max =
    if ltb max_shift (shift_of attempts)
    then max
    else capped (shift_left base (shift_of attempts)) max

capped-bounds :
    (delay max : ℤ) → pos 1 ≤ℤ max → (pos 1 ≤ℤ capped delay max) × (capped delay max ≤ℤ max)
capped-bounds delay max h = ground arith

-- For a positive cap, the delay is positive and at most the cap, whatever the attempts and the base
-- are, those for which the shift wraps around included.
pub backoff_delay-bounds :
    (attempts base max : ℤ)
    → pos 1 ≤ℤ max
    → (pos 1 ≤ℤ backoff_delay attempts base max) × (backoff_delay attempts base max ≤ℤ max)
unfolding backoff_delay
backoff_delay-bounds attempts base max h =
    ground (arith, capped-bounds (shift_left base (shift_of attempts)) max h)

power_small : (n : ℕ) → n ≤ 32 → 2 ^ n ≤ 4294967296
power_small n h = pow-le-pow_right (omega arith) h

product_small : (base p : ℕ) → base < 2147483648 → p ≤ 4294967296 → base * p ≤ 9223372032559808512
product_small base p h k = le_trans (mul-le-mul_left base k) (omega arith)

shift_exact :
    (n base : ℕ) → base < 2147483648 → n ≤ 32 → shift_left (pos base) n ≡ pos (base * 2 ^ n)
unfolding shift_left
shift_exact n base small few =
    let h = product_small base (2 ^ n) small (power_small n few) in
    wrap64_exact (pos (base * 2 ^ n)) (omega arith, omega (arith, h))

-- For a positive base below 2^31 nanoseconds, a positive cap and at most 33 attempts,
-- `backoffDelay` is the base doubled once for each attempt after the first, or the cap where that
-- is less: the shift does not wrap around.
pub backoff_delay_lem :
    (n base max : ℕ)
    → base < 2147483648
    → 0 < base
    → n ≤ 32
    → 0 < max
    → backoff_delay (pos (n + 1)) (pos base) (pos max)
      ≡ pos (if ltb max (base * 2 ^ n) then max else base * 2 ^ n)
unfolding backoff_delay
backoff_delay_lem n base max small one few high =
    let same : n + 1 - 1 ≡ n = omega arith in
    let power : 1 ≤ 2 ^ n = pow-le-pow_right {n = 2} (omega arith) {i = 0} (omega arith) in
    let product : base * 1 ≤ base * 2 ^ n = mul-le-mul_left base power in
    rw (same, shift_exact n base small few) (ground (arith, product))
