-- ===== src/Messaging/Retries.antt =====
-- The delay before a message is visible again (`retryDelay` of infra/messaging/consumer.go).
use distributed_wallet_api.Prelude.{ℕ, zero, suc, ◌-◌, ◌^◌, ◌*◌, ◌≤◌, Option, arith}
use distributed_wallet_api.Messaging.Handler.{second, smaller, received, retry_delay}

powers : (k : ℕ) → k ≤ 6 → (1 ≤ 2 ^ k) × (2 ^ k ≤ 64)
powers zero h = (omega arith, omega arith)
powers (suc zero) h = (omega arith, omega arith)
powers (suc (suc zero)) h = (omega arith, omega arith)
powers (suc (suc (suc zero))) h = (omega arith, omega arith)
powers (suc (suc (suc (suc zero)))) h = (omega arith, omega arith)
powers (suc (suc (suc (suc (suc zero))))) h = (omega arith, omega arith)
powers (suc (suc (suc (suc (suc (suc zero)))))) h = (omega arith, omega arith)
powers (suc (suc (suc (suc (suc (suc (suc n))))))) h = absurd (omega (arith, h))

smaller-bound : (n : ℕ) → smaller n 6 ≤ 6
smaller-bound n = ground arith

-- The delay is at least a second, at most 64 seconds and at most the visibility timeout, whatever
-- the receive count is, for a timeout of at least a second.
pub retry_delay-bounds :
    (visibility_timeout : ℕ) (count : Option ℕ)
    → second ≤ visibility_timeout
    → (second ≤ retry_delay visibility_timeout count)
      × (retry_delay visibility_timeout count ≤ visibility_timeout)
      × (retry_delay visibility_timeout count ≤ 64 * second)
unfolding retry_delay
retry_delay-bounds visibility_timeout count h =
    let (low, high) =
      powers (smaller (received count - 1) 6) (smaller-bound (received count - 1)) in
    ground arith
