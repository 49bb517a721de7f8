-- ===== src/Backoff/Growth.antt =====
-- What `grow` promises of a backoff.
use winsvr.Base.{ℕ, ◌+◌, ◌≤◌, ◌≡◌, arith, min}
use winsvr.Base.Int.{pos, max_int64}
use winsvr.Backoff.{grow}

-- For a backoff of 0 < cur ≤ max, with max any int64, `grow` is the smaller of twice the backoff and
-- max: the doubling never wraps to a negative duration.
pub grow-eq-min :
    (cur max : ℕ)
    → cur ≤ max
    → max ≤ max_int64
    → grow (pos cur) (pos max) ≡ pos (min (cur + cur) max)
unfolding grow
grow-eq-min cur max h fits = ground arith
