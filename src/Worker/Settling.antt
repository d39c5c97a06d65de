-- ===== src/Worker/Settling.antt =====
-- How a claimed event is settled: which update its row receives.
use qbo_invoice_sync.Common.{
  ◌+◌, ◌≡◌, refl, inl, inr, ◌||◌, none, some, leb, Bool-cases, if◌then◌else◌,
}
use qbo_invoice_sync.Errors.{is_permanent, Result, ok, err}
use qbo_invoice_sync.Queue.{
  dead, Row, InboundEvent, update_row, finish, postpone, ack, dead_letter, retry_later,
}
use qbo_invoice_sync.Worker.{
  SyncOutcome, SyncWorkerOptions, Readings, World, error_message, retry_delay, disposition,
  handle_error, settle,
}
use qbo_invoice_sync.Queue.{disposition_status}
use qbo_invoice_sync.Queue.Invariant.{Step, acked, dead_lettered, postponed}

module _ (options : SyncWorkerOptions) where
  -- The update of the event's row, by the outcome of the pipeline.
  abbrev pub settled_row : Readings → InboundEvent → Result SyncOutcome → Row → Row
  settled_row t event (ok outcome) =
      finish t.settle_now (disposition_status (disposition outcome.kind)) none
  settled_row t event (err e) =
      if is_permanent e.kind || leb options.max_attempts event.attempts
      then finish t.settle_now dead (some (error_message e))
      else postpone (t.settle_now + retry_delay options t event e) (error_message e)

  pub settled_row-id :
      (t : Readings) (event : InboundEvent) (result : Result SyncOutcome) (r : Row)
      → (settled_row t event result r).id ≡ r.id
  settled_row-id t event (ok outcome) r = refl
  settled_row-id t event (err e) r =
      elim (Bool-cases (is_permanent e.kind || leb options.max_attempts event.attempts)) [
        | inl last ↦ rw last
        | inr again ↦ rw again
      ]

  pub settle-queue :
      {S : Type 0} (t : Readings) (event : InboundEvent) (r : Result SyncOutcome) (w : World S)
      → (settle options t event r w).queue
        ≡ record (w.queue) { rows = update_row event.id (settled_row t event r) w.queue.rows }
  unfolding handle_error ack dead_letter retry_later
  settle-queue t event (ok outcome) w = refl
  settle-queue t event (err e) w =
      elim (Bool-cases (is_permanent e.kind || leb options.max_attempts event.attempts)) [
        | inl last ↦ rw last
        | inr again ↦ rw again
      ]

  -- Settling an event is one operation of the queue.
  pub settle-Step :
      {S : Type 0} (t : Readings) (event : InboundEvent) (r : Result SyncOutcome) (w : World S)
      → Step w.queue (settle options t event r w).queue
  unfolding handle_error
  settle-Step t event (ok outcome) w = acked t.settle_now event.id (disposition outcome.kind) refl
  settle-Step t event (err e) w =
      elim (Bool-cases (is_permanent e.kind || leb options.max_attempts event.attempts)) [
        | inl last ↦ dead_lettered t.settle_now event.id (error_message e) (rw last)
        | inr again ↦
            postponed event.id (t.settle_now + retry_delay options t event e) (error_message e)
              (rw again)
      ]
