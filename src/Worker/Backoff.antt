-- ===== src/Worker/Backoff.antt =====
-- The delay before a retry.
use native.Mathlib.Nat.{pow-le-pow_right, mul-le-mul_left}
use qbo_invoice_sync.Common.{ℕ, ◌+◌, ◌-◌, ◌*◌, ◌/◌, ◌^◌, ◌≤◌, ◌<◌, or_else, arith}
use qbo_invoice_sync.Worker.{SyncWorkerOptions, backoff_exp, backoff_delay}

jitter_bounds :
    (e r : ℕ) → r < 2 ^ 53 → let d = (e * (2 ^ 53 + r) + 2 ^ 53) / 2 ^ 54 in (e ≤ d + d) × (d ≤ e)
jitter_bounds e r h = grind arith

-- With the fraction of `Math.random()` below 1, the delay lies between half the exponential
-- backoff and the whole of it, which never exceeds the configured maximum, and does not fall with
-- the number of attempts.
pub backoff_bounds :
    (options : SyncWorkerOptions) (random a b : ℕ)
    → random < 2 ^ 53
    → a ≤ b
    → (backoff_exp options a ≤ backoff_delay options random a + backoff_delay options random a)
      × (backoff_delay options random a ≤ backoff_exp options a)
      × (backoff_exp options a ≤ or_else options.backoff_max_ms 60000)
      × (backoff_exp options a ≤ backoff_exp options b)
unfolding backoff_delay
backoff_bounds options random a b h le =
    let base = or_else options.backoff_base_ms 1000 in
    let power : 2 ^ (a - 1) ≤ 2 ^ (b - 1) = pow-le-pow_right (omega arith) (omega arith) in
    let grows = mul-le-mul_left base power in
    (
      (jitter_bounds (backoff_exp options a) random h).0,
      (jitter_bounds (backoff_exp options a) random h).1,
      omega arith,
      omega arith,
    )
