-- ===== src/Controllers/Invoices/Announcing.antt =====
-- Every request that changes the internal system announces the change once
-- (src/controllers/invoiceController.ts).
use qbo_invoice_sync.Common.{ℕ, Bool, ◌≡◌, refl, Option, none, some, [], ◌∷◌, ◌++◌, String}
use qbo_invoice_sync.Common.Int.{pos}
use qbo_invoice_sync.Errors.{Result, ok, err}
use qbo_invoice_sync.Action.{Action, pure, lift, continue, ◌>>=◌}
use qbo_invoice_sync.Json.{Json}
use qbo_invoice_sync.Invoice.{Date}
use qbo_invoice_sync.Ledger.{Ledger, Fresh, InternalInvoice, must_get}
use qbo_invoice_sync.Ledger.Editing.{to_voided, to_deleted}
use qbo_invoice_sync.Views.{InvoiceView}
use qbo_invoice_sync.Webhooks.{EntityType, invoice, payment}
use qbo_invoice_sync.Controllers.{HttpReply, sent, failure, respond}
use qbo_invoice_sync.Controllers.Webhooks.{
  ChangeOperation, create, update, void, delete, InternalChangeEvent,
}
use qbo_invoice_sync.Controllers.Invoices
use qbo_invoice_sync.Controllers.Invoices.{
  Site, in_books, emit, event_of, viewed, announce, named, with_id, announce_if,
}
use qbo_invoice_sync.Controllers.Invoices.Schemas.{
  parse_create_invoice, parse_update_invoice, parse_payment,
}
use qbo_invoice_sync.Controllers.Invoices.Whole.{
  IsWhole, create-IsWhole, update-IsWhole, end-IsWhole, pay-IsWhole,
}

-- The requests that change an invoice (src/routes/index.ts).
pub data Request : Type 0 where
  creation : Json → Request
  edit : String → Json → Request
  voiding deletion : String → Request
  paying : String → Json → Request

-- The invoice that a request is about: the one it names, or the one that is created.
abbrev pub invoice_of : Fresh → Request → String
invoice_of t (creation body) = t.id
invoice_of t (edit id body) = id
invoice_of t (voiding id) = id
invoice_of t (deletion id) = id
invoice_of t (paying id body) = id

-- What the announcement of a request tells, of an invoice or of the payment that is created.
abbrev pub entity_told : Request → EntityType
entity_told (creation body) = invoice
entity_told (edit id body) = invoice
entity_told (voiding id) = invoice
entity_told (deletion id) = invoice
entity_told (paying id body) = payment

abbrev pub id_told : Fresh → Request → String
id_told t (creation body) = t.id
id_told t (edit id body) = id
id_told t (voiding id) = id
id_told t (deletion id) = id
id_told t (paying id body) = t.id

abbrev pub operation_told : Request → ChangeOperation
operation_told (creation body) = create
operation_told (edit id body) = update
operation_told (voiding id) = void
operation_told (deletion id) = delete
operation_told (paying id body) = create

-- What a request leaves: one more announcement, of this operation on this entity, with the version of
-- the request's invoice as the tables then have it; or everything as it was, but for the sequence of
-- the numbers, and an answer that tells of a failure.
pub data Announced (iso : Date → String) (t : Fresh) (request : Request) (s : Site)
    (reply : HttpReply InvoiceView) (u : Site) : Type 0 where
  announced :
      (event : InternalChangeEvent) (changed : InternalInvoice)
      → u.emitted ≡ s.emitted ++ (event ∷ [])
      → event.entity_type ≡ entity_told request
      → event.entity_id ≡ id_told t request
      → event.operation ≡ operation_told request
      → event.version ≡ pos changed.version
      → event.occurred_at ≡ iso (some t.now)
      → changed.id ≡ invoice_of t request
      → (must_get (invoice_of t request) u.ledger).0 ≡ ok changed
      → Announced iso t request s reply u
  nothing :
      (code : ℕ) (message : String)
      → reply ≡ failure code message
      → u.emitted ≡ s.emitted
      → u.ledger ≡ record (s.ledger) { doc_number_seq = u.ledger.doc_number_seq }
      → Announced iso t request s reply u

-- Whatever the view of the invoice is, the change stays announced.
answered :
    (iso : Date → String) (t : Fresh) (request : Request) (s u : Site) (code : ℕ)
    (view : Result InvoiceView)
    → ((reply : HttpReply InvoiceView) → Announced iso t request s reply u)
    → let (reply, end) = respond (continue (λ v. pure (sent code v)) (view, u)) in
      Announced iso t request s reply end
answered iso t request s u code (ok v) told = told (sent code v)
answered iso t request s u code (err e) told = told (failure 500 e.message)

module _ (is_uuid is_email : String → Bool) (iso : Date → String) (print : ℕ → String)
    (t : Fresh) where
  announce-Announced :
      (request : Request) (code : ℕ) (change : Action Ledger (InternalInvoice × String)) (s : Site)
      → IsWhole (invoice_of t request) (id_told t request) change
      → let (reply, u) = respond (
          announce is_uuid is_email iso print t
            (entity_told request)
            (operation_told request)
            code
            change
            s) in
        Announced iso t request s reply u
  unfolding announce in_books emit ◌>>=◌
  announce-Announced request code change s whole = go (change s.ledger) refl
    where
      view_of : InternalInvoice × String → Action Site (HttpReply InvoiceView)
      view_of x = do
        _ ←
            emit (
              event_of is_uuid is_email iso print t (entity_told request) (operation_told request)
                x)
        v ← lift (viewed is_uuid is_email iso print t x.0)
        pure (sent code v)

      go :
          (r : Result (InternalInvoice × String) × Ledger)
          → change s.ledger ≡ r
          → let (reply, u) = respond (continue view_of (r.0, record s { ledger = r.1 })) in
            Announced iso t request s reply u
      go (ok (i, id), m) e =
          answered iso t request s _ code (viewed is_uuid is_email iso print t i) (λ reply.
            announced
              (event_of is_uuid is_email iso print t (entity_told request) (operation_told request)
                (i, id))
              i refl refl (whole.done s.ledger m i id e).2 refl refl refl
              (whole.done s.ledger m i id e).1 (whole.done s.ledger m i id e).0)
      go (err x, m) e = nothing 500 x.message refl refl (whole.undone s.ledger m x e)

  unfoldable pub handle : Request → Site → HttpReply InvoiceView × Site
  unfolding Invoices.create_invoice Invoices.update_invoice Invoices.void_invoice
      Invoices.delete_invoice Invoices.add_payment
  handle (creation body) = Invoices.create_invoice is_uuid is_email iso print t body
  handle (edit id body) = Invoices.update_invoice is_uuid is_email iso print t id body
  handle (voiding id) = Invoices.void_invoice is_uuid is_email iso print t id
  handle (deletion id) = Invoices.delete_invoice is_uuid is_email iso print t id
  handle (paying id body) = Invoices.add_payment is_uuid is_email iso print t id body

  refused_or :
      {I : Type 0} (input : Option I) (request : Request) (code : ℕ)
      (change : I → Action Ledger (InternalInvoice × String)) (s : Site)
      → ((i : I) → IsWhole (invoice_of t request) (id_told t request) (change i))
      → let (reply, u) =
          Invoices.announce_if is_uuid is_email iso print t input
            (λ i.
              announce is_uuid is_email iso print t
                (entity_told request)
                (operation_told request)
                code
                (change i))
            s in
        Announced iso t request s reply u
  refused_or none request code change s whole = nothing 400 "validation failed" refl refl refl
  refused_or (some i) request code change s whole =
      announce-Announced request code (change i) s (whole i)

  -- Every request that changes invoices posts one announcement to the synchronisation: of the operation
  -- that was asked for, on the invoice that it names or creates, or on the payment that it creates, with
  -- the version of that invoice as it reads after the change. Or it fails, posts nothing, and leaves the
  -- tables as they were, up to the sequence of the numbers.
  pub change_told :
      (request : Request) (s : Site)
      → let (reply, u) = handle request s in Announced iso t request s reply u
  unfolding handle Invoices.create_invoice Invoices.update_invoice Invoices.void_invoice
      Invoices.delete_invoice Invoices.add_payment
  change_told (creation body) s =
      refused_or (parse_create_invoice is_uuid body) (creation body) 201 _ s
        (create-IsWhole print t)
  change_told (edit id body) s =
      refused_or (parse_update_invoice is_uuid body) (edit id body) 200 _ s
        (update-IsWhole print t id)
  change_told (voiding id) s =
      announce-Announced (voiding id) 200 _ s (end-IsWhole print t id to_voided)
  change_told (deletion id) s =
      announce-Announced (deletion id) 200 _ s (end-IsWhole print t id to_deleted)
  change_told (paying id body) s =
      refused_or (parse_payment body) (paying id body) 201 _ s (pay-IsWhole print t id)
