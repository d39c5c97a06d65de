-- ===== src/Controllers/Invoices.antt =====
-- src/controllers/invoiceController.ts: the interface of the internal invoicing system. Every change
-- is announced to the synchronisation by src/services/webhookEmitter.ts, whose posts are the list of
-- what was emitted; whether one arrives is open. zod's test of a UUID and of an address are
-- parameters.
pub mod Schemas
pub mod Whole
pub mod Announcing
mod Tests
use qbo_invoice_sync.Common.{ℕ, Bool, Option, none, some, List, [], ◌∷◌, ◌++◌, String}
use qbo_invoice_sync.Common.Int.{pos}
use qbo_invoice_sync.Errors.{SyncError, plain_error, Result, ok, err}
use qbo_invoice_sync.Action.{Action, pure, lift, traverse, modify, ◌>>=◌, ◌>>◌}
use qbo_invoice_sync.Json.{Json}
use qbo_invoice_sync.Invoice.{Date}
use qbo_invoice_sync.Ledger.{Customer, Ledger, Fresh, InternalInvoice}
use qbo_invoice_sync.Ledger.Editing
use qbo_invoice_sync.Ledger.Editing.{
  InternalInvoiceInput, InvoiceChanges, PaymentInput, to_voided, to_deleted, Terminal,
  set_lifecycle, list_invoices,
}
use qbo_invoice_sync.Views.{InvoiceView, invoice_view}
use qbo_invoice_sync.Webhooks.{EntityType, invoice, payment}
use qbo_invoice_sync.Controllers.{HttpReply, sent, failure, invalid, respond}
use qbo_invoice_sync.Controllers.Webhooks.{
  ChangeOperation, create, update, void, delete, InternalChangeEvent,
}
use qbo_invoice_sync.Controllers.Invoices.Schemas.{
  parse_create_invoice, parse_update_invoice, parse_payment, parse_customer, CustomerInput,
}

-- The internal system: its tables, and what it has posted to the synchronisation.
pub record Site : Type 0 where
  pub ledger : Ledger
  pub emitted : List InternalChangeEvent

abbrev pub in_books_at : {A : Type 0} → Site → Result A × Ledger → Result A × Site
in_books_at s (r, l) = (r, record s { ledger = l })

unfoldable pub in_books : {A : Type 0} → Action Ledger A → Action Site A
in_books f s = in_books_at s (f s.ledger)

-- `emitter.emit`
unfoldable pub emit : InternalChangeEvent → Action Site Unit
emit event s = (ok tt, record s { emitted = s.emitted ++ (event ∷ []) })

abbrev pub named : InternalInvoice → Action Ledger (InternalInvoice × String)
named changed = pure (changed, changed.id)

-- The id of an invoice is the one that is announced.
abbrev pub with_id : Action Ledger InternalInvoice → Action Ledger (InternalInvoice × String)
with_id change = change >>= named

module _ (is_uuid is_email : String → Bool) (iso : Date → String) (print : ℕ → String)
    (t : Fresh) where
  abbrev pub event_of :
      EntityType → ChangeOperation → InternalInvoice × String → InternalChangeEvent
  event_of type operation (changed, id) = record {
    entity_type = type;
    entity_id = id;
    operation = operation;
    version = pos changed.version;
    occurred_at = iso (some t.now);
  }

  abbrev pub viewed : InternalInvoice → Result InvoiceView
  viewed shown = (invoice_view iso shown tt).0

  -- The change, its announcement, and the view of the invoice after it.
  unfoldable pub announce :
      EntityType
      → ChangeOperation
      → (code : ℕ) → Action Ledger (InternalInvoice × String)
      → Action Site (HttpReply InvoiceView)
  unfolding in_books emit invoice_view
  announce type operation code change = do
    changed ← in_books change
    emit (event_of type operation changed)
    view ← lift (viewed changed.0)
    pure (sent code view)

  abbrev pub announce_if :
      {I : Type 0}
      → Option I
      → (I → Action Site (HttpReply InvoiceView))
      → Site
      → HttpReply InvoiceView × Site
  announce_if none f s = (invalid, s)
  announce_if (some input) f s = respond (f input s)

  unfoldable pub create_invoice : Json → Site → HttpReply InvoiceView × Site
  unfolding parse_create_invoice announce
  create_invoice body =
      announce_if (parse_create_invoice is_uuid body)
        (λ input. announce invoice create 201 (with_id (Editing.create print t input)))

  unfoldable pub update_invoice : String → Json → Site → HttpReply InvoiceView × Site
  unfolding parse_update_invoice announce
  update_invoice id body =
      announce_if (parse_update_invoice is_uuid body)
        (λ changes. announce invoice update 200 (with_id (Editing.update t id changes)))

  unfoldable pub void_invoice : String → Site → HttpReply InvoiceView × Site
  unfolding announce
  void_invoice id s = respond (announce invoice void 200 (with_id (set_lifecycle t id to_voided)) s)

  unfoldable pub delete_invoice : String → Site → HttpReply InvoiceView × Site
  unfolding announce
  delete_invoice id s =
      respond (announce invoice delete 200 (with_id (set_lifecycle t id to_deleted)) s)

  unfoldable pub add_payment : String → Json → Site → HttpReply InvoiceView × Site
  unfolding parse_payment announce
  add_payment id body =
      announce_if (parse_payment body)
        (λ input. announce payment create 201 (Editing.add_payment t id input))

  abbrev pub answer : Option InternalInvoice → Action Site (HttpReply InvoiceView)
  answer none = pure (failure 404 "invoice not found")
  answer (some found) = do view ← lift (viewed found); pure (sent 200 view)

  unfoldable pub get_invoice : String → Site → HttpReply InvoiceView × Site
  unfolding in_books invoice_view
  get_invoice id s = respond ((do found ← in_books (Editing.get id); answer found) s)

  unfoldable pub list_all : Site → HttpReply (List InvoiceView) × Site
  unfolding invoice_view list_invoices
  list_all s = respond (
      (do
        views ← lift (traverse (invoice_view iso) (list_invoices 100 s.ledger) tt).0
        pure (sent 200 views))
        s)

  -- `INSERT INTO customers`; the address is answered, and the table of customers has the name.
  unfoldable pub create_customer : Json → Site → HttpReply CustomerInput × Site
  unfolding parse_customer
  create_customer body s = elim (parse_customer is_email body) [
    | none ↦ (invalid, s)
    | some input ↦ (
      sent 201 input,
      record s {
        ledger = record (s.ledger) {
          customers = s.ledger.customers ++ (record { id = t.customer_id; name = input.name } ∷ []);
        };
      },
    )
  ]

  unfoldable pub list_customers : Site → HttpReply (List Customer) × Site
  list_customers s = (sent 200 s.ledger.customers, s)
