-- ===== src/Backoff.antt =====
-- The waiting helpers of supervisor.go, which the updater uses too: `sleep` and `grow`, and the
-- durations that bound them, in nanoseconds.
pub mod Growth
use winsvr.Base.{ℕ, ◌*◌, Bool, if◌then◌else◌}
use winsvr.Base.Int.{ℤ, pos, ltb_ℤ, half, add_int64}
use winsvr.Go.World.{Env, World}
use winsvr.Go.Os.{wait_timer}

abbrev pub millisecond : ℕ
millisecond = 1_000_000

abbrev pub second : ℕ
second = 1_000_000_000

-- healthyAfter
abbrev pub healthy_after : ℕ
healthy_after = 30 * second

module _ (env : Env) where
  -- True when the timer fired, false when the context was done.
  unfoldable pub sleep : ℤ → World → Bool × World
  sleep d = wait_timer env d

-- cur * 2 in int64 is cur + cur.
unfoldable pub grow : ℤ → ℤ → ℤ
grow cur max = if ltb_ℤ (half max) cur then max else add_int64 cur cur
