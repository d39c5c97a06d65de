-- ===== src/Worker/Progress.antt =====
-- The worker makes progress: every round that finds an event uses up one of the attempts that are
-- left, so a run of rounds comes to an end with nothing due.
pub mod Measure
use mathlib.Core.Bool.{false≢true}
use qbo_invoice_sync.Worker.Progress.Measure.{rounds_left, work, work-update, update_row-update_row}
use qbo_invoice_sync.Common.{
  ℕ, zero, suc, ◌+◌, ◌-◌, ◌≤◌, ◌<◌, ◌≡◌, ◌≢◌, refl, sym, ap, ap₂, subst, ◌∙◌, inl, inr, Bool, true,
  false, ◌||◌, Option, none, some, List, arith, leb, or_else, In, All, Bool-cases, Option-cases,
  if◌then◌else◌,
}
use qbo_invoice_sync.Errors.{is_permanent, Result, ok, err}
use qbo_invoice_sync.Queue.{
  InboundEventStatus, pending, in_flight, processed, skipped, failed, dead, Row, InboundEvent,
  Queue, to_event, is_due, update_row, take_lease, claim,
}
use qbo_invoice_sync.Queue.Rows.{IsFirstDue, NoneDue}
use qbo_invoice_sync.Queue.Claim.{Claimed, claim-Claimed, claim-none_iff, claim_idle}
use qbo_invoice_sync.Queue.Invariant.{IsValid, Step-IsValid, Step}
use qbo_invoice_sync.Queue.Invariant
use qbo_invoice_sync.Worker.{
  ok_outcome, skip_outcome, SyncOutcome, SyncWorkerOptions, Readings, World, Process, settle,
  process_claimed, after_claim, tick, drain_loop, drain,
}
use qbo_invoice_sync.Worker.Settling.{settled_row, settle-queue, settle-Step}
use qbo_invoice_sync.Worker.Rounds.{tick-none, tick-some, tick_queue, tick-IsValid, tick_idle}

due_left :
    (max now : ℕ) (r : Row) → is_due now r ≡ true → rounds_left max r ≡ suc (max - r.attempts)
due_left max now r due = ground arith

module _ (options : SyncWorkerOptions) where
  settled_left :
      (t : Readings) (lease_ms now : ℕ) (r : Row) (result : Result SyncOutcome)
      → rounds_left options.max_attempts (
          settled_row options t
            (to_event (take_lease now lease_ms r))
            result
            (take_lease now lease_ms r))
        ≤ options.max_attempts - r.attempts
  settled_left t lease_ms now r (ok outcome) = ground arith
  settled_left t lease_ms now r (err e) = ground arith

  module _ {S : Type 0} (process : Process S) where
    tick_found :
        (t : Readings) (w : World S) {q : Queue} {e : InboundEvent}
        → claim t.claim_now (or_else options.lease_ms 60000) t.held w.queue ≡ (q, some e)
        → IsValid w.queue
        → work options.max_attempts (tick options process t w).0.queue.rows
          < work options.max_attempts w.queue.rows
    tick_found t w {q} {e} h v =
        let lease = or_else options.lease_ms 60000 in
        let c = claim-Claimed t.claim_now lease t.held w.queue h in
        let left = settled_left t lease t.claim_now c.row (process e (w.audit, w.sync)).0 in
        let total =
          work-update options.max_attempts
            (λ r.
              settled_row options t e (process e (w.audit, w.sync)).0
                (take_lease t.claim_now lease r))
            c.row w.queue.rows v.ascending c.first.present in
        let due = due_left options.max_attempts t.claim_now c.row c.first.due in
        let less =
          subst
            (λ x.
              rounds_left options.max_attempts (
                settled_row options t x (process e (w.audit, w.sync)).0
                  (take_lease t.claim_now lease c.row))
              ≤ options.max_attempts - c.row.attempts)
            (sym c.event) left in
        rw (tick_queue options process t w h) (omega arith)

    tick_worked :
        (t : Readings) (w : World S)
        → (tick options process t w).1 ≡ true
        → IsValid w.queue
        → work options.max_attempts (tick options process t w).0.queue.rows
          < work options.max_attempts w.queue.rows
    tick_worked t w worked v =
        let lease = or_else options.lease_ms 60000 in
        let c = claim t.claim_now lease t.held w.queue in
        elim (Option-cases c.1) [
          | inl nothing ↦
              let h = claim_idle t.claim_now lease t.held w.queue nothing in
              absurd (false≢true (sym (ap (λ x. x.1) (tick-none options process t w h)) ∙ worked))
          | inr (e, found) ↦ let h : c ≡ (c.0, some e) = λ i. (c.0, found i) in tick_found t w h v
        ]

    -- What is left when the loop stops, having begun at round `i` in `w`.
    abbrev Stopped : (ℕ → Readings) → ℕ → World S → World S × ℕ → Type 0
    Stopped readings i w (w', n) =
        IsValid w'.queue
        × (n ≤ i + work options.max_attempts w.queue.rows)
        × NoneDue (readings n).claim_now (readings n).held w'.queue.rows

    drain_loop-next :
        (f i : ℕ) (readings : ℕ → Readings) (w : World S)
        → (tick options process (readings i) w).1 ≡ true
        → drain_loop options process (suc f) i readings w
          ≡ drain_loop options process f (i + 1) readings (tick options process (readings i) w).0
    unfolding drain_loop
    drain_loop-next f i readings w worked = rw worked

    drain_loop-last :
        (f i : ℕ) (readings : ℕ → Readings) (w : World S)
        → (tick options process (readings i) w).1 ≡ false
        → drain_loop options process (suc f) i readings w
          ≡ ((tick options process (readings i) w).0, i)
    unfolding drain_loop
    drain_loop-last f i readings w idle = rw idle

    -- The loop stops of itself: with more rounds than the rows can take, whatever the pipeline
    -- answers and the clocks read.
    drain_loop-Stopped :
        (f i : ℕ) (readings : ℕ → Readings) (w : World S)
        → IsValid w.queue
        → work options.max_attempts w.queue.rows < f
        → Stopped readings i w (drain_loop options process f i readings w)
    drain_loop-Stopped zero i readings w v enough = absurd (omega arith)
    drain_loop-Stopped (suc f) i readings w v enough =
        let t = readings i in
        elim (Bool-cases (tick options process t w).1) [
          | inl worked ↦
              let less = tick_worked t w worked v in
              let rest =
                drain_loop-Stopped f (i + 1) readings (tick options process t w).0
                  (tick-IsValid options process t w v) (omega arith) in
              subst (Stopped readings i w) (sym (drain_loop-next f i readings w worked))
                (rest.0, omega arith, rest.2)
          | inr idle ↦
              let (same, none_due) = tick_idle options process t w idle in
              subst (Stopped readings i w) (sym (drain_loop-last f i readings w idle)) (
                tick-IsValid options process t w v,
                omega arith,
                subst (λ q. NoneDue t.claim_now t.held q.rows) (sym same) none_due,
              )
        ]

-- `drain` ends with nothing due: if the table's rows can take fewer than a thousand rounds, then
-- whatever the pipeline answers and the clocks read, it stops by finding nothing due, after at most
-- as many rounds, in a well-formed queue.
pub drain_stops :
    {S : Type 0} (options : SyncWorkerOptions) (process : Process S) (readings : ℕ → Readings)
    (w : World S)
    → IsValid w.queue
    → work options.max_attempts w.queue.rows < 1000
    → let (w', n) = drain options process readings w in
      IsValid w'.queue
      × (n ≤ work options.max_attempts w.queue.rows)
      × NoneDue (readings n).claim_now (readings n).held w'.queue.rows
unfolding drain
drain_stops options process readings w v enough =
    let (valid, rounds, none_due) = drain_loop-Stopped options process 1000 0 readings w v enough in
    (valid, omega arith, none_due)
