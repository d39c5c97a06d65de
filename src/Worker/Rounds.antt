-- ===== src/Worker/Rounds.antt =====
-- One round of the worker, by what the claim finds.
use mathlib.Core.Bool.{false≢true}
use qbo_invoice_sync.Worker.Progress.Measure.{update_row-update_row}
use qbo_invoice_sync.Common.{
  ℕ, ◌≡◌, refl, sym, ap, ap₂, ◌∙◌, inl, inr, true, false, Option, none, some, or_else, Option-cases,
}
use qbo_invoice_sync.Queue.{InboundEvent, Queue, update_row, take_lease, claim}
use qbo_invoice_sync.Queue.Rows.{NoneDue}
use qbo_invoice_sync.Queue.Claim.{claim-Claimed, claim-none_iff, claim_idle}
use qbo_invoice_sync.Queue.Invariant.{IsValid, Step-IsValid, Step}
use qbo_invoice_sync.Queue.Invariant
use qbo_invoice_sync.Worker.{
  SyncWorkerOptions, Readings, World, Process, process_claimed, after_claim, tick,
}
use qbo_invoice_sync.Worker.Settling.{settled_row, settle-queue, settle-Step}

module _ (options : SyncWorkerOptions) where
  module _ {S : Type 0} (process : Process S) where
    pub tick-none :
        (t : Readings) (w : World S) {q : Queue}
        → claim t.claim_now (or_else options.lease_ms 60000) t.held w.queue ≡ (q, none)
        → tick options process t w ≡ (record w { queue = q }, false)
    unfolding tick
    tick-none t w h = ap (after_claim options process t w) h

    pub tick-some :
        (t : Readings) (w : World S) {q : Queue} {e : InboundEvent}
        → claim t.claim_now (or_else options.lease_ms 60000) t.held w.queue ≡ (q, some e)
        → tick options process t w
          ≡ (process_claimed options process t e (record w { queue = q }), true)
    unfolding tick
    tick-some t w h = ap (after_claim options process t w) h

    process_claimed-queue :
        (t : Readings) (e : InboundEvent) (w : World S)
        → (process_claimed options process t e w).queue ≡ record (w.queue) {
          rows =
              update_row e.id
                (settled_row options t e (process e (w.audit, w.sync)).0)
                w.queue.rows;
        }
    unfolding process_claimed
    process_claimed-queue t e w = settle-queue options t e (process e (w.audit, w.sync)).0 _

    -- The queue after a round that found an event.
    pub tick_queue :
        (t : Readings) (w : World S) {q : Queue} {e : InboundEvent}
        → (h : claim t.claim_now (or_else options.lease_ms 60000) t.held w.queue ≡ (q, some e))
        → let c = claim-Claimed t.claim_now (or_else options.lease_ms 60000) t.held w.queue h in
          (tick options process t w).0.queue.rows
          ≡ update_row c.row.id
              (λ r.
                settled_row options t e
                  (process e (w.audit, w.sync)).0
                  (take_lease t.claim_now (or_else options.lease_ms 60000) r))
              w.queue.rows
    tick_queue t w {q} {e} h =
        let c = claim-Claimed t.claim_now (or_else options.lease_ms 60000) t.held w.queue h in
        let same : e.id ≡ c.row.id = ap (λ x. x.id) c.event in
        ap (λ x. x.0.queue.rows) (tick-some t w h)
        ∙ ap (λ x. x.rows) (process_claimed-queue t e (record w { queue = q }))
        ∙ ap₂ (λ n rs. update_row n (settled_row options t e (process e (w.audit, w.sync)).0) rs)
            same c.rows
        ∙ update_row-update_row c.row.id _ _ w.queue.rows (λ r. refl)

    -- A round is a claim and one more operation of the queue, so it keeps the queue well formed.
    pub tick-IsValid :
        (t : Readings) (w : World S) → IsValid w.queue → IsValid (tick options process t w).0.queue
    unfolding tick process_claimed
    tick-IsValid t w v =
        go (claim t.claim_now lease t.held w.queue)
          (Step-IsValid w.queue _ (Invariant.Step.claimed t.claim_now lease t.held refl) v)
      where
        lease : ℕ
        lease = or_else options.lease_ms 60000

        go :
            (c : Queue × Option InboundEvent)
            → IsValid c.0
            → IsValid (after_claim options process t w c).0.queue
        go (q, none) k = k
        go (q, some e) k =
            let (result, audit, sync) = process e (w.audit, w.sync) in
            let u : World S = record { queue = q; audit = audit; sync = sync } in
            Step-IsValid q _ (settle-Step options t e result u) k

    -- What a round that found nothing says of the queue.
    pub tick_idle :
        (t : Readings) (w : World S)
        → (tick options process t w).1 ≡ false
        → ((tick options process t w).0.queue ≡ w.queue) × NoneDue t.claim_now t.held w.queue.rows
    tick_idle t w idle =
        let lease = or_else options.lease_ms 60000 in
        let c = claim t.claim_now lease t.held w.queue in
        elim (Option-cases c.1) [
          | inl nothing ↦
              let h = claim_idle t.claim_now lease t.held w.queue nothing in
              (
                ap (λ x. x.0.queue) (tick-none t w h),
                (claim-none_iff t.claim_now lease t.held w.queue).0 h,
              )
          | inr (e, found) ↦
              let h : c ≡ (c.0, some e) = λ i. (c.0, found i) in
              absurd (false≢true (sym idle ∙ ap (λ x. x.1) (tick-some t w h)))
        ]
