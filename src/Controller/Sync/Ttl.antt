-- ===== src/Controller/Sync/Ttl.antt =====
-- When the time to live of a shell is over.
use cloudtty.Base.{ℕ, ◌+◌, ◌-◌, ◌*◌, ◌≤◌, ◌<◌, true, some, ◌≡◌, ◌↔◌, arith}
use cloudtty.Base.Int.{pos, negsuc, scale_int64}
use cloudtty.Controller.Sync.{time_left, is_over}

scale_small :
    (ttl : ℕ) → ttl ≤ 9223372036 → scale_int64 1000000000 (pos ttl) ≡ pos (ttl * 1000000000)
scale_small ttl h = ground (arith, h)

scale_large :
    (ttl : ℕ)
    → 9223372036 < ttl
    → ttl ≤ 18446744073
    → scale_int64 1000000000 (pos ttl) ≡ negsuc (18446744073709551616 - ttl * 1000000000 - 1)
scale_large ttl h k = ground (arith, h, k)

-- A time to live of at most 9223372036 seconds is over exactly once that many seconds have passed
-- since the start.
pub time_left_exact :
    (start ttl now : ℕ)
    → ttl ≤ 9223372036
    → (is_over (some (time_left start (pos ttl) now)) ≡ true) ↔ (start + ttl * 1000000000 < now)
unfolding time_left
time_left_exact start ttl now h = rw (scale_small ttl h) (ground arith)

-- A time to live of more than 9223372036 seconds, up to 18446744073, is over at once, at any time
-- from the start on.
pub time_left_overflow :
    (start ttl now : ℕ)
    → 9223372036 < ttl
    → ttl ≤ 18446744073
    → start ≤ now
    → is_over (some (time_left start (pos ttl) now)) ≡ true
unfolding time_left
time_left_overflow start ttl now h k started = rw (scale_large ttl h k) (ground (arith, started))
