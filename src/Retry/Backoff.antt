-- ===== src/Retry/Backoff.antt =====
-- The delay between two attempts of `withRpcRetry`.
use climate_chain.Shared.{ℕ, ◌+◌, ◌-◌, ◌*◌, ◌/◌, ◌^◌, ◌≤◌, ◌<◌, arith}
use climate_chain.Retry.{jittered_delay}
use native.Mathlib.Nat.{mul-le-mul_left, mul-le-mul_right, lt-div-mul-add, div-lt_iff_lt-mul}
use native.Mathlib.Decide.{dec_le}

window_bounds :
    (e scale k : ℕ)
    → 0 < e
    → k < scale
    → (e ≤ 2 * ((e * (scale + k) + scale) / (2 * scale)))
      × ((e * (scale + k) + scale) / (2 * scale) ≤ e)
window_bounds e scale k pos h =
    let x : ℕ = e * (scale + k) + scale in
    let q : ℕ = x / (2 * scale) in
    let room : 0 < 2 * scale = omega arith in
    let below : e * (k + 1) ≤ e * scale = mul-le-mul_left e (omega arith) in
    let split : x < q * (2 * scale) + 2 * scale = lt-div-mul-add room in
    let upper : q < e + 1 = (div-lt_iff_lt-mul room).1 (omega arith) in
    let lower : e ≤ 2 * q = elim (dec_le e (2 * q)) [
      | yes p ↦ p
      | no p ↦
          let wide : (2 * q + 1) * scale ≤ e * scale = mul-le-mul_right scale (omega arith) in
          absurd (omega arith)
    ] in
    (lower, omega arith)

-- The delay before the retry that follows attempt `attempt` lies between half of the exponential
-- window `base_delay_ms * 2 ^ (attempt - 1)` and the whole window, whatever the jitter.
pub jittered_delay_bounds :
    (scale base_delay_ms attempt k : ℕ)
    → 0 < base_delay_ms * 2 ^ (attempt - 1)
    → k < scale
    → (base_delay_ms * 2 ^ (attempt - 1) ≤ 2 * jittered_delay scale base_delay_ms attempt k)
      × (jittered_delay scale base_delay_ms attempt k ≤ base_delay_ms * 2 ^ (attempt - 1))
unfolding jittered_delay
jittered_delay_bounds scale base_delay_ms attempt k pos h = window_bounds _ scale k pos h
