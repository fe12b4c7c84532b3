-- ===== src/Prelude/Values.antt =====
-- Identifiers and instants. The program only compares `uuid.UUID` values, and compares instants
-- of `time.Time` with one another and with the zero time.
use Prim.Native.Nat.{ℕ}
use mathlib.Core.Bool.{Bool}
use distributed_wallet_api.Prelude.Tests.{ltb, ◌==◌}

abbrev pub Uuid : Type 0
Uuid = ℕ

-- `uuid.Nil`
abbrev pub nil_uuid : Uuid
nil_uuid = 0

abbrev pub is_nil : Uuid → Bool
is_nil id = id == nil_uuid

-- An instant, in whole microseconds from Go's zero time, 1 January of the year 1: what TIMESTAMPTZ
-- keeps. The finer digits of the clock, which the storage cuts off, are left out. `UTC()` keeps the instant.
abbrev pub Time : Type 0
Time = ℕ

-- `t.IsZero()`
abbrev pub is_zero_time : Time → Bool
is_zero_time t = t == 0

-- `t.Before(u)`
abbrev pub before : Time → Time → Bool
before t u = ltb t u
