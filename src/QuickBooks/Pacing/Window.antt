-- ===== src/QuickBooks/Pacing/Window.antt =====
-- The rate limit of src/providers/quickbooks/qboClient.ts over a run of requests that follow one
-- another.
use qbo_invoice_sync.Common.{
  ℕ, ◌+◌, ◌≤◌, ◌≡◌, ◌&&◌, List, [], ◌∷◌, ltb, leb, length, All, if◌then◌else◌,
}
use qbo_invoice_sync.QuickBooks.{QboConfig, Outside, Qbo, time_of}
use qbo_invoice_sync.QuickBooks.Pacing.{recent, wait_ms}
use qbo_invoice_sync.QuickBooks.Client.{rate_limit}

-- How many of the times lie in the minute that begins at `a`.
abbrev pub in_minute : ℕ → List ℕ → ℕ
in_minute a [] = 0
in_minute a (t ∷ ts) = (if leb a t && ltb t (a + 60000) then 1 else 0) + in_minute a ts

abbrev count_recent : ℕ → List ℕ → ℕ
count_recent z ts = length (recent z ts)

-- Newest first, with at most 449 requests in the minute before each.
abbrev IsPaced : List ℕ → Type 0
IsPaced [] = Unit
IsPaced (x ∷ h) = All (λ t. t ≤ x) h × (count_recent x h ≤ 449) × IsPaced h

module _ {N : Type 0} (config : QboConfig) (out : Outside N) where
  abbrev kept : Qbo N → List ℕ
  kept w = recent (time_of out w) w.request_timestamps

  -- When the request goes out, the wait behind it.
  abbrev pub sent_at : Qbo N → ℕ
  sent_at w = out.clock (w.readings + 1) + (w.slept + wait_ms (time_of out w) (kept w))

  -- A run of the client, with the times at which its requests went out, the newest first: the
  -- timestamps are changed by the requests alone, and neither the clock nor the sleep goes back.
  pub data Run : List ℕ → Qbo N → Type 0 where
    begun : {w : Qbo N} → w.request_timestamps ≡ [] → Run [] w
    limited : {h : List ℕ} {w : Qbo N} → Run h w → Run (sent_at w ∷ h) (rate_limit config out w).1
    meanwhile :
        {h : List ℕ} {w v : Qbo N}
        → Run h w
        → v.request_timestamps ≡ w.request_timestamps
        → w.readings ≤ v.readings
        → w.slept ≤ v.slept
        → Run h v

  record Tracks (h : List ℕ) (w : Qbo N) : Type 0 where
    paced : IsPaced h
    past : All (λ t. t ≤ time_of out w) h
    counts : (z : ℕ) → time_of out w ≤ z → count_recent z h ≡ count_recent z w.request_timestamps
