-- ===== src/Sync/Auditing/Events.antt =====
-- Every event that the pipeline finishes leaves one audit entry, and one that fails leaves none.
use qbo_invoice_sync.Common.{str_eq}
use qbo_invoice_sync.Queue.{InboundEvent}
use qbo_invoice_sync.Sync
use qbo_invoice_sync.Sync.{
  World, Env, write_audit, SkipAction, skip_entry, skip, reason, finish_ok, in_ledger, in_ledger_at,
  in_links, in_remote, read_clock,
}
use qbo_invoice_sync.Sync.Invoices.{from_internal}
use qbo_invoice_sync.Sync.Payments.{process_payment_event}
use qbo_invoice_sync.Sync.Pipeline.{process_event}
use qbo_invoice_sync.Sync.Auditing.{Audited, IsAudited, if-IsAudited, skip-IsAudited}
use qbo_invoice_sync.Sync.Auditing.Invoices.{process_invoice_event-IsAudited}
use qbo_invoice_sync.Sync.Auditing.Payments.{
  process_internal_payment-IsAudited, process_external_payment-IsAudited,
}

module _ {P : Type 0} (env : Env P) (event : InboundEvent) where
  process_event-IsAudited : IsAudited event (process_event env event)
  unfolding process_event process_payment_event
  process_event-IsAudited =
      if-IsAudited event (str_eq event.entity_type "invoice") _ _
        (process_invoice_event-IsAudited env event)
        (if-IsAudited event (str_eq event.entity_type "payment") _ _
          (if-IsAudited event (from_internal event) _ _
            (process_internal_payment-IsAudited env event)
            (process_external_payment-IsAudited env event))
          (skip-IsAudited env event Sync.SkipAction.noop _))

-- Every event that the pipeline finishes, applied or skipped, adds one entry to the audit log, for
-- that event and with the action that is returned; an event that fails adds none. The provider may
-- do whatever it wants.
pub process_event-Audited :
    {P : Type 0} (env : Env P) (event : InboundEvent) (w : World P)
    → Audited event w.audit (process_event env event w)
process_event-Audited env event w = (process_event-IsAudited env event).audited w
