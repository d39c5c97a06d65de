-- ===== src/Worker/Outcomes.antt =====
-- What a round does with the event that it found, by the answer of the pipeline.
use qbo_invoice_sync.Common.{◌+◌, ◌≤◌, ◌<◌, ◌≡◌, ◌⊎◌, true, false, some}
use qbo_invoice_sync.Errors.{SyncError, is_permanent, Result, ok, err}
use qbo_invoice_sync.Audit.{AuditLog, record_entry}
use qbo_invoice_sync.Queue.{failed, dead, Row, InboundEvent, Queue}
use qbo_invoice_sync.Queue.{disposition_status}
use qbo_invoice_sync.Worker.{
  SyncOutcome, SyncWorkerOptions, Readings, disposition, error_message, failure_entry, retry_delay,
}

-- How the round leaves the row of its event and the audit log: an answer is acknowledged; an error
-- that is permanent, or comes at the last attempt, makes a dead letter and one audit entry; any
-- other error is put off, with an attempt to spare.
pub data Settlement (options : SyncWorkerOptions) (t : Readings) (e : InboundEvent)
    (result : Result SyncOutcome) (before after : AuditLog) (s : Row) : Type 0 where
  acknowledged :
      (o : SyncOutcome)
      → result ≡ ok o
      → s.status ≡ disposition_status (disposition o.kind)
      → after ≡ before
      → Settlement options t e result before after s
  buried :
      (x : SyncError)
      → result ≡ err x
      → (is_permanent x.kind ≡ true) ⊎ (options.max_attempts ≤ e.attempts)
      → s.status ≡ dead
      → s.last_error ≡ some (error_message x)
      → after ≡ record_entry t.audit_now (failure_entry e x) before
      → Settlement options t e result before after s
  put_off :
      (x : SyncError)
      → result ≡ err x
      → is_permanent x.kind ≡ false
      → e.attempts < options.max_attempts
      → s.status ≡ failed
      → s.attempts ≡ e.attempts
      → s.next_attempt_at ≡ t.settle_now + retry_delay options t e x
      → after ≡ before
      → Settlement options t e result before after s
