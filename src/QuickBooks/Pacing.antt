-- ===== src/QuickBooks/Pacing.antt =====
-- `rateLimit` of src/providers/quickbooks/qboClient.ts: which of the past requests still count, and
-- how long the next one waits.
pub mod Window
use qbo_invoice_sync.Common.{ℕ, ◌+◌, ◌-◌, List, [], ◌∷◌, ltb, leb, length, if◌then◌else◌}

-- `requestTimestamps.filter((t) => now - t < 60_000)`
unfoldable pub recent : ℕ → List ℕ → List ℕ
recent now [] = []
recent now (t ∷ ts) = if ltb now (t + 60000) then t ∷ recent now ts else recent now ts

abbrev pub wait_from : ℕ → List ℕ → ℕ
wait_from now [] = 0
wait_from now (oldest ∷ ts) = oldest + 60000 - now + 50

-- How long the request sleeps, the timestamps being those that count.
abbrev pub wait_ms : ℕ → List ℕ → ℕ
wait_ms now ts = if leb 450 (length ts) then wait_from now ts else 0
