-- ===== src/Sync/Payments.antt =====
-- The payment events of src/services/syncService.ts: a payment is immutable, and is copied to the
-- other side once.
use Prim.Native.String.{◌++◌ as text_append}
use qbo_invoice_sync.Common.{
  Bool, true, false, not, Option, none, some, or_else, List, [], ◌∷◌, String, str_eq, if◌then◌else◌,
}
use qbo_invoice_sync.Common.Int.{ℤ, pos, ◌+ℤ◌, eqb_ℤ}
use qbo_invoice_sync.Errors.{SyncError, plain_error}
use qbo_invoice_sync.Action.{Action, pure, raise, or_raise, ◌>>=◌, ◌>>◌}
use qbo_invoice_sync.Json.{bool, num, str, arr, obj, Items, nil, cons, Fields, end, field}
use qbo_invoice_sync.Invoice.{PaymentAllocation, CanonicalPayment, payment_reference_code}
use qbo_invoice_sync.Audit.{
  AuditEntry, AuditAction, applied, applied_divergent, recovered_orphan_write,
}
use qbo_invoice_sync.Queue.{InboundEvent}
use qbo_invoice_sync.Ledger.{PaymentRow, InternalInvoice, fetch_full}
use qbo_invoice_sync.Ledger.Editing.{
  get, get_by_doc_number, get_payment, find_payment, PaymentInput,
}
use qbo_invoice_sync.Ledger.Applying.{apply_external_payment}
use qbo_invoice_sync.Links.{
  EntityLink, invoice_entity, payment_entity, find_internal, find_external, find_by_internal_id,
  find_by_external_id, create_link,
}
use qbo_invoice_sync.Provider.{ExternalPaymentState}
use qbo_invoice_sync.Worker.{SyncOutcome}
use qbo_invoice_sync.Sync.{
  World, Env, echo, stale, noop, duplicate, skip, reason, finish_ok, in_ledger, in_links, in_remote,
}
use qbo_invoice_sync.Sync.Invoices.{from_internal, link_of}

abbrev pub not_linked_yet : SyncError
not_linked_yet = record {
  kind = plain_error;
  message = "invoice not linked yet; retrying payment later";
}

abbrev pub invoice_not_found : SyncError
invoice_not_found = record {
  kind = plain_error;
  message = "internal invoice not found for payment; retrying later";
}

abbrev pub canonical_payment : String → PaymentRow → InternalInvoice → CanonicalPayment
canonical_payment id payment invoice = record {
  amount_cents = payment.amount_cents;
  method = some payment.method;
  received_at = payment.received_at;
  allocations =
      record { invoice_doc_number = invoice.doc_number; amount_cents = payment.amount_cents } ∷ [];
  reference_code = some (payment_reference_code id);
}

-- The part of the allocations that is on the invoice.
unfoldable pub sum_allocated : ℤ → String → List PaymentAllocation → ℤ
sum_allocated sum doc [] = sum
sum_allocated sum doc (a ∷ rest) =
    if str_eq a.invoice_doc_number doc
    then sum_allocated (sum +ℤ a.amount_cents) doc rest
    else sum_allocated sum doc rest

-- `external.payment?.allocations ?? []`
abbrev pub stored_allocations : ExternalPaymentState → List PaymentAllocation
stored_allocations external = elim external.payment [ none ↦ [] | some p ↦ p.allocations ]

abbrev pub applied_to : String → ExternalPaymentState → ℤ
applied_to doc external = sum_allocated (pos 0) doc (stored_allocations external)

abbrev pub payment_action : Bool → PaymentRow → InternalInvoice → ExternalPaymentState → AuditAction
payment_action recovered payment invoice external =
    if eqb_ℤ (applied_to invoice.doc_number external) payment.amount_cents
    then (if recovered then recovered_orphan_write else applied)
    else applied_divergent

abbrev pub allocations_json : List PaymentAllocation → Items
allocations_json [] = nil
allocations_json (a ∷ rest) =
    cons
      (obj (
        field "invoiceDocNumber" (str a.invoice_doc_number)
          (field "amountCents" (num a.amount_cents) end)))
      (allocations_json rest)

abbrev pub divergence_fields : Bool → Fields
divergence_fields agrees =
    if agrees
    then end
    else field "divergence" (str "provider applied another amount to the invoice") end

abbrev pub recovered_fields : Bool → Fields → Fields
recovered_fields recovered more = if recovered then field "recovered" (bool true) more else more

abbrev pub payment_entry :
    InboundEvent → Bool → PaymentRow → InternalInvoice → ExternalPaymentState → AuditEntry
payment_entry event recovered payment invoice external = record {
  inbound_event_id = some event.id;
  entity_type = "payment";
  internal_id = some event.entity_id;
  external_id = some external.external_id;
  action = payment_action recovered payment invoice external;
  detail = some (
      obj (
        field "direction" (str "internal->external") (
          field "amountCents" (num payment.amount_cents) (
            field "invoiceDocNumber" (str invoice.doc_number) (
              field "appliedAllocations" (arr (allocations_json (stored_allocations external))) (
                recovered_fields recovered (
                  divergence_fields
                    (eqb_ℤ (applied_to invoice.doc_number external) payment.amount_cents))))))));
}

-- An allocation and the invoice that it pays.
pub record Target : Type 0 where
  pub allocation : PaymentAllocation
  pub invoice : InternalInvoice

pub record AppliedAllocation : Type 0 where
  pub invoice_doc_number : String
  pub amount_cents : ℤ
  pub payment_id : String
  pub deduplicated : Bool

abbrev pub applied_json : List AppliedAllocation → Items
applied_json [] = nil
applied_json (a ∷ rest) =
    cons
      (obj (
        field "invoiceDocNumber" (str a.invoice_doc_number) (
          field "amountCents" (num a.amount_cents) (
            field "paymentId" (str a.payment_id)
              (field "deduplicated" (bool a.deduplicated) end)))))
      (applied_json rest)

abbrev pub external_entry :
    InboundEvent → CanonicalPayment → AppliedAllocation → List AppliedAllocation → AuditEntry
external_entry event payment first rest = record {
  inbound_event_id = some event.id;
  entity_type = "payment";
  internal_id = some first.payment_id;
  external_id = some event.entity_id;
  action = applied;
  detail = some (
      obj (
        field "direction" (str "external->internal") (
          field "totalCents" (num payment.amount_cents)
            (field "allocations" (arr (applied_json (first ∷ rest))) end))));
}

-- `${provider.name}:payment:${entityId}:${invoiceDocNumber}`
abbrev pub external_ref : String → String → String → String
external_ref provider entity_id doc =
    text_append provider (text_append ":payment:" (text_append entity_id (text_append ":" doc)))

abbrev pub allocation_input : CanonicalPayment → PaymentAllocation → PaymentInput
allocation_input payment a = record {
  amount_cents = a.amount_cents;
  method = some (or_else payment.method "other");
  received_at = some payment.received_at;
}

module _ {P : Type 0} (env : Env P) where
  -- The payment that the provider has under the reference, or a new one, and whether it was found.
  abbrev pub found_or_created :
      CanonicalPayment
      → String
      → Option ExternalPaymentState
      → Action (World P) (ExternalPaymentState × Bool)
  found_or_created payment invoice_external_id (some external) = pure (external, true)
  found_or_created payment invoice_external_id none = do
    external ← in_remote env (env.provider.create_payment payment invoice_external_id)
    pure (external, false)

  unfoldable pub copy_payment :
      InboundEvent → PaymentRow → InternalInvoice → Option EntityLink → Action (World P) SyncOutcome
  unfolding create_link
  copy_payment event payment invoice none = raise not_linked_yet
  copy_payment event payment invoice (some invoice_link) = do
    existing ←
        in_remote env
          (env.provider.find_payment_by_reference (payment_reference_code event.entity_id))
    found ←
        found_or_created (canonical_payment event.entity_id payment invoice)
          invoice_link.external_id existing
    in_links env (λ t. create_link t.db_now (
        link_of env payment_entity event.entity_id found.0.external_id found.0.sync_token none
          none))
    finish_ok env (payment_entry event found.1 payment invoice found.0)

  abbrev pub copy_if_invoice :
      InboundEvent → PaymentRow → Option InternalInvoice → Action (World P) SyncOutcome
  copy_if_invoice event payment none = skip env event stale (reason "invoice for payment missing")
  copy_if_invoice event payment (some invoice) = do
    invoice_link ←
        in_links env (λ t. find_by_internal_id env.provider.name invoice_entity invoice.id)
    copy_payment event payment invoice invoice_link

  abbrev pub copy_if_found : InboundEvent → Option PaymentRow → Action (World P) SyncOutcome
  copy_if_found event none = skip env event stale (reason "internal payment no longer exists")
  copy_if_found event (some payment) = do
    invoice ← in_ledger env (λ t. get payment.invoice_id)
    copy_if_invoice event payment invoice

  abbrev pub copy_if_new : InboundEvent → Option EntityLink → Action (World P) SyncOutcome
  copy_if_new event (some link) = skip env event duplicate (reason "payment already synced")
  copy_if_new event none = do
    payment ← in_ledger env (λ t. get_payment event.entity_id)
    copy_if_found event payment

  unfoldable pub process_internal_payment : InboundEvent → Action (World P) SyncOutcome
  unfolding copy_payment skip fetch_full find_payment find_internal
  process_internal_payment event = do
    link ← in_links env (λ t. find_by_internal_id env.provider.name payment_entity event.entity_id)
    copy_if_new event link

  -- Every allocation's invoice, before anything is written.
  unfoldable pub find_targets : List PaymentAllocation → Action (World P) (List Target)
  unfolding fetch_full
  find_targets [] = pure []
  find_targets (a ∷ rest) = do
    found ← in_ledger env (λ t. get_by_doc_number a.invoice_doc_number)
    invoice ← or_raise invoice_not_found found
    targets ← find_targets rest
    pure (record { allocation = a; invoice = invoice } ∷ targets)

  unfoldable pub apply_target :
      String → CanonicalPayment → Target → Action (World P) AppliedAllocation
  unfolding apply_external_payment
  apply_target entity_id payment target = do
    result ← in_ledger env (λ t.
        apply_external_payment t target.invoice.id (allocation_input payment target.allocation)
          (external_ref env.provider.name entity_id target.allocation.invoice_doc_number))
    pure (record {
      invoice_doc_number = target.allocation.invoice_doc_number;
      amount_cents = target.allocation.amount_cents;
      payment_id = result.payment_id;
      deduplicated = not result.created;
    })

  unfoldable pub apply_targets :
      String → CanonicalPayment → List Target → Action (World P) (List AppliedAllocation)
  unfolding apply_target
  apply_targets entity_id payment [] = pure []
  apply_targets entity_id payment (target ∷ rest) = do
    first ← apply_target entity_id payment target
    others ← apply_targets entity_id payment rest
    pure (first ∷ others)

  -- The allocations are not empty, so a payment has been applied.
  abbrev pub record_applied :
      InboundEvent
      → ExternalPaymentState
      → CanonicalPayment
      → List AppliedAllocation
      → Action (World P) SyncOutcome
  record_applied event external payment [] = raise invoice_not_found
  record_applied event external payment (first ∷ rest) = do
    in_links env (λ t.
        create_link t.db_now (
          link_of env payment_entity first.payment_id event.entity_id external.sync_token none
            none))
    finish_ok env (external_entry event payment first rest)

  unfoldable pub apply_payment :
      InboundEvent
      → ExternalPaymentState
      → CanonicalPayment
      → List PaymentAllocation
      → Action (World P) SyncOutcome
  unfolding skip find_targets apply_targets create_link
  apply_payment event external payment [] =
      skip env event noop (reason "payment has no invoice allocations (unapplied/credit payment)")
  apply_payment event external payment (a ∷ rest) = do
    targets ← find_targets (a ∷ rest)
    done ← apply_targets event.entity_id payment targets
    record_applied event external payment done

  abbrev pub payment_gone : InboundEvent → Action (World P) SyncOutcome
  payment_gone event = skip env event stale (reason "external payment no longer exists")

  abbrev pub apply_if_found :
      InboundEvent → Option ExternalPaymentState → Action (World P) SyncOutcome
  apply_if_found event none = payment_gone event
  apply_if_found event (some external) = elim external.payment [
    | none ↦ payment_gone event
    | some payment ↦ apply_payment event external payment payment.allocations
  ]

  abbrev pub apply_if_new : InboundEvent → Option EntityLink → Action (World P) SyncOutcome
  apply_if_new event (some link) = skip env event echo (reason "payment already linked")
  apply_if_new event none = do
    external ← in_remote env (env.provider.get_payment event.entity_id)
    apply_if_found event external

  unfoldable pub process_external_payment : InboundEvent → Action (World P) SyncOutcome
  unfolding apply_payment skip find_external
  process_external_payment event = do
    link ← in_links env (λ t. find_by_external_id env.provider.name payment_entity event.entity_id)
    apply_if_new event link

  unfoldable pub process_payment_event : InboundEvent → Action (World P) SyncOutcome
  unfolding process_internal_payment process_external_payment
  process_payment_event event =
      if from_internal event then process_internal_payment event else process_external_payment event
