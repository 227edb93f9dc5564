-- ===== src/Scheduler/Ticker.antt =====
-- src/service/scheduler.go, pollJobs: the ticker. An interval is multiplied by a second in 64 bits, and time.NewTicker
-- panics for a duration that is not positive.
use samanager_backend.Base.{
  ℕ, suc, ◌-◌, ◌*◌, ◌%◌, ◌^◌, ◌≤◌, ◌≡◌, ◌↔◌, refl, Bool, true, false, ltb, arith, if◌then◌else◌,
}
use samanager_backend.Base.Int.{ℤ, pos, negsuc, abs}

-- The int64 with these bits.
abbrev of_bits : ℕ → ℤ
of_bits m = if ltb m (2 ^ 63) then pos m else negsuc (2 ^ 64 - m - 1)

-- `time.Duration(js.pollingInterval) * time.Second`
unfoldable pub duration : ℤ → ℤ
duration (pos n) = of_bits (n * 1000000000 % 2 ^ 64)
duration (negsuc n) = of_bits ((2 ^ 64 - suc n * 1000000000 % 2 ^ 64) % 2 ^ 64)

abbrev pub is_positive : ℤ → Bool
is_positive (pos n) = ltb 0 n
is_positive (negsuc n) = false

-- Whether there is a ticker, and no panic.
unfoldable pub makes_ticker : ℤ → Bool
unfolding duration
makes_ticker interval = is_positive (duration interval)

-- An interval of at most 9223372036 seconds, either way, makes a ticker exactly when it is positive.
pub makes_ticker_iff :
    (interval : ℤ)
    → abs interval ≤ 9223372036
    → (makes_ticker interval ≡ true) ↔ (is_positive interval ≡ true)
unfolding makes_ticker duration
makes_ticker_iff (pos n) small = ground arith
makes_ticker_iff (negsuc n) small = ground arith

-- From there on the product does not fit: one second more wraps to a negative duration.
wraps : makes_ticker (pos 9223372037) ≡ false
unfolding makes_ticker
wraps = refl
