-- ===== src/Retry.antt =====
-- What the delay of internal/controller/release_controller.go amounts to, failure by failure.
use Prim.Native.Nat.{min}
use native.Mathlib.Nat.{pow-suc, suc-add}
use native.Mathlib.Decide.{dec_lt}
use nelm_operator.Base.{
  ℕ, zero, suc, ◌+◌, ◌-◌, ◌*◌, ◌%◌, ◌^◌, ◌≤◌, ◌<◌, ◌≡◌, refl, arith, pos, eq_ℤ, eq_ℤ→eq,
  holds_below, holds_below_at, ltb, true, int64_modulus,
}
use nelm_operator.Controller.{backoff}

delay_table :
    holds_below (λ n. eq_ℤ (backoff n) (pos (min (2 ^ n * 15000000000) 300000000000))) 30 ≡ true
unfolding holds_below eq_ℤ backoff
delay_table = refl

-- Up to the failure 29 the delay is 15 seconds doubled once for each failure, capped at five
-- minutes: nothing wraps.
pub backoff-eq-min : (n : ℕ) → n < 30 → backoff n ≡ pos (min (2 ^ n * 15000000000) 300000000000)
backoff-eq-min n h = eq_ℤ→eq _ _ (holds_below_at _ 30 delay_table n h)

wrapped_table :
    holds_below (λ n. elim (ltb n 55) [ true ↦ true | _ ↦ eq_ℤ (backoff n) (pos 0) ]) 64 ≡ true
unfolding holds_below eq_ℤ backoff
wrapped_table = refl

-- The powers from the 64th on are multiples of the modulus.
high_power : (k : ℕ) → 2 ^ (k + 64) % int64_modulus ≡ 0
high_power zero = refl
high_power (suc k) = rw (suc-add, pow-suc) (omega (arith, high_power k))

backoff_high : (k : ℕ) → backoff (k + 64) ≡ pos 0
unfolding backoff
backoff_high k = rw (high_power k)

-- From the failure 55 on the product wraps to zero, and the delay with it.
pub backoff-eq-zero : (n : ℕ) → 55 ≤ n → backoff n ≡ pos 0
backoff-eq-zero n h = elim (dec_lt n 64) [
  | yes low ↦ eq_ℤ→eq _ _ (ground (arith, holds_below_at _ 64 wrapped_table n low))
  | no high ↦ let e : n ≡ n - 64 + 64 = omega arith in rw e (backoff_high (n - 64))
]
