-- ===== src/Tests/Delays.antt =====
-- The wait before another attempt to publish.
use distributed_wallet_api.Prelude.{arith, ◌≡◌, ltb, if◌then◌else◌, ◌≤ℤ◌, pos, negsuc, ◌*◌, ◌^◌}
use distributed_wallet_api.Backoff.{backoff_delay, backoff_delay_lem, backoff_delay-bounds}

backoff_delay_lem_example :
    backoff_delay (pos 4) (pos 1000) (pos 60000)
    ≡ pos (if ltb 60000 (1000 * 2 ^ 3) then 60000 else 1000 * 2 ^ 3)
backoff_delay_lem_example =
    backoff_delay_lem 3 1000 60000 (omega arith) (omega arith) (omega arith) (omega arith)

backoff_delay-bounds_example :
    (pos 1 ≤ℤ backoff_delay (pos 20) (negsuc 5) (pos 60000))
    × (backoff_delay (pos 20) (negsuc 5) (pos 60000) ≤ℤ pos 60000)
backoff_delay-bounds_example = backoff_delay-bounds (pos 20) (negsuc 5) (pos 60000) (omega arith)
