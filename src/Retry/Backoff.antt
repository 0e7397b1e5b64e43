-- ===== src/Retry/Backoff.antt =====
-- `calculateExponentialBackoff` (src/rest/BackoffUtils.cpp) against unbounded arithmetic.
use Prim.Native.Nat.{min}
use native.Mathlib.Nat.{mul-le-mul, mul-le-mul_right, pow-le-pow_right}
use libschemaregistry.Outcome.{ok, undefined}
use libschemaregistry.Prelude.{ℕ, ◌-◌, ◌*◌, ◌/◌, ◌^◌, ◌≤◌, ◌<◌, ◌≡◌, arith}
use libschemaregistry.Retry.{calculate_exponential_backoff}

-- The code's test for overflow, turned into a product.
overflows : (initial p : ℕ) → 0 < initial → (2 ^ 32 - 1) / initial < p → 2 ^ 32 ≤ p * initial
overflows initial p h o = omega (arith, mul-le-mul_right initial o)

shifted_out : (initial attempt : ℕ) → 0 < initial → 32 ≤ attempt → 2 ^ 32 ≤ 2 ^ attempt * initial
shifted_out initial attempt h o =
    omega (arith, mul-le-mul (pow-le-pow_right {n = 2} (omega arith) {i = 32} {j = attempt} o) h)

-- With an initial wait and a 32-bit bound the guards against overflow never show: the wait, before
-- the random factor, is the smaller of the bound and 2 ^ attempt times the initial wait.
pub calculate_exponential_backoff-eq-min :
    (initial attempt max_backoff : ℕ) (scale : ℕ → ℕ)
    → 0 < initial
    → max_backoff < 2 ^ 32
    → calculate_exponential_backoff initial attempt max_backoff scale
      ≡ ok (scale (min max_backoff (2 ^ attempt * initial)))
unfolding calculate_exponential_backoff
calculate_exponential_backoff-eq-min initial attempt max_backoff scale h b =
    ground (arith, shifted_out initial attempt h, overflows initial (2 ^ attempt) h)

-- With no initial wait the code divides by zero, in every attempt up to the thirty-second.
pub calculate_exponential_backoff-zero :
    (attempt max_backoff : ℕ) (scale : ℕ → ℕ)
    → attempt < 32
    → calculate_exponential_backoff 0 attempt max_backoff scale ≡ undefined
unfolding calculate_exponential_backoff
calculate_exponential_backoff-zero attempt max_backoff scale h = ground arith
