-- ===== src/Controller/Backoff.antt =====
-- The delay before a retry, in `handleFailure`.
use nelm_operator.Base.{ℕ, ℤ, pos, negsuc, multiply, shift_one, min_ℤ, Option, none, some}
use nelm_operator.Api.{Duration}

abbrev pub second : Duration
second = pos 1000000000

abbrev pub max_backoff : Duration
max_backoff = pos 300000000000

-- `min(time.Duration(1<<n)*15*time.Second, 5*time.Minute)` for a count that is not negative.
unfoldable pub backoff : ℕ → Duration
unfolding multiply shift_one min_ℤ
backoff n = min_ℤ (multiply (multiply (shift_one n) (pos 15)) second) max_backoff

-- A negative shift count is a run-time panic.
unfoldable pub retry_delay : ℤ → Option Duration
retry_delay (pos n) = some (backoff n)
retry_delay (negsuc n) = none
