-- ===== src/Engine/Retry/Delay.antt =====
-- The time between two attempts.
use cget.Prelude.{ℕ, zero, suc, ◌+◌, ◌*◌, ◌^◌, ◌≡◌, ◌≤◌, arith, min, u32, ◌-◌, subst}
use native.Mathlib.Nat.{two-pow-succ, mul-le-mul_right}
use cget.Config.Defs.{Config}
use cget.Config.Normalize.{normalize}
use cget.Config.Normalize.Bounds.{normalize-InLimits}
use cget.Engine.Retry.{retry_delay}

shift_le : (k m j : ℕ) → m + k ≡ j → 2 ^ k ≤ 2 ^ j
shift_le k zero j e =
    let same : k ≡ j = omega arith in subst (λ (i : ℕ). 2 ^ k ≤ 2 ^ i) same (omega arith)
shift_le k (suc m) zero e = absurd (omega arith)
shift_le k (suc m) (suc j) e = omega (arith, shift_le k m j (omega arith), two-pow-succ j)

shift_small : (n : ℕ) → 2 ^ min n 10 ≤ 1024
shift_small n = shift_le (min n 10) (10 - min n 10) 10 (omega arith)

delay_small :
    (base shift : ℕ)
    → base ≤ 60000
    → shift ≤ 1024
    → (u32 (base * u32 shift) ≡ base * shift) × (u32 (base * u32 shift) ≤ 61440000)
delay_small base shift low high =
    let same : u32 shift ≡ shift = omega arith in
    let wide : base * shift ≤ 60000 * shift = mul-le-mul_right shift low in
    rw same (omega arith, omega arith)

-- Under a normalized configuration the sleep before a further attempt is the base delay, doubled with
-- each attempt up to the tenth, and never wraps around: at most 61 440 seconds.
pub retry_delay-doubles :
    (config : Config) (n : ℕ)
    → let base = (normalize config).network.retry_base_delay_ms in
      (retry_delay base n ≡ base * 2 ^ min n 10) × (retry_delay base n ≤ 61440000)
unfolding retry_delay
retry_delay-doubles config n =
    let (low, high) = (normalize-InLimits config).0.delay in
    delay_small (normalize config).network.retry_base_delay_ms (2 ^ min n 10) high (shift_small n)
