-- ===== src/Sync/Pipeline.antt =====
-- `processEvent` of src/services/syncService.ts.
use qbo_invoice_sync.Common.{str_eq, if◌then◌else◌}
use qbo_invoice_sync.Action.{Action}
use qbo_invoice_sync.Queue.{InboundEvent}
use qbo_invoice_sync.Worker.{SyncOutcome}
use qbo_invoice_sync.Sync.{World, Env, noop, skip, reason}
use qbo_invoice_sync.Sync.Invoices.{process_invoice_event}
use qbo_invoice_sync.Sync.Payments.{process_payment_event}

unfoldable pub process_event : {P : Type 0} → Env P → InboundEvent → Action (World P) SyncOutcome
unfolding process_invoice_event process_payment_event skip
process_event env event =
    if str_eq event.entity_type "invoice"
    then process_invoice_event env event
    else if str_eq event.entity_type "payment"
    then process_payment_event env event
    else skip env event noop (reason "unsupported entity")
