-- ===== src/Sync/Working.antt =====
-- The pipeline as what the worker runs: `SyncService` as src/workers/syncWorker.ts is given it, the
-- audit log being one table that both write.
mod Tests
use qbo_invoice_sync.Common.{◌+◌, ◌≡◌, refl, subst, ℕ, some}
use qbo_invoice_sync.Errors.{SyncError, Result}
use qbo_invoice_sync.Audit.{AuditEntry, AuditLog, record_entry}
use qbo_invoice_sync.Queue.{failed, dead, Row, InboundEvent, Queue, disposition_status}
use qbo_invoice_sync.Worker
use qbo_invoice_sync.Worker.{SyncOutcome, Process, disposition, failure_entry}
use qbo_invoice_sync.Sync.{World, Env}
use qbo_invoice_sync.Sync.Pipeline.{process_event}

abbrev pub share_audit :
    {P : Type 0} → Result SyncOutcome × World P → Result SyncOutcome × AuditLog × World P
share_audit (r, w) = (r, w.audit, w)

-- `this.sync.processEvent(event)`
abbrev pub synchronise : {P : Type 0} → Env P → Process (World P)
synchronise env event (log, w) = share_audit (process_event env event (record w { audit = log }))

-- What the log says of an event after a round, by the row of the event: an event that is processed
-- or skipped has one entry, with the action that it was settled by; a dead letter has one entry of
-- the failure; an event that will be tried again has none.
pub data Logged (e : InboundEvent) (before after : AuditLog) (s : Row) : Type 0 where
  finished :
      (o : SyncOutcome) (now : ℕ) (entry : AuditEntry)
      → s.status ≡ disposition_status (disposition o.kind)
      → after ≡ record_entry now entry before
      → entry.action ≡ o.action
      → entry.inbound_event_id ≡ some e.id
      → Logged e before after s
  failed_for_good :
      (x : SyncError) (now : ℕ)
      → s.status ≡ dead
      → after ≡ record_entry now (failure_entry e x) before
      → Logged e before after s
  to_retry : s.status ≡ failed → after ≡ before → Logged e before after s
