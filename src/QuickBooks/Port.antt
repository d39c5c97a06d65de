-- ===== src/QuickBooks/Port.antt =====
-- src/providers/quickbooks/qboProvider.ts: the adapter as a provider of the port.
pub mod Links
pub mod Allocations
use qbo_invoice_sync.Common.{
  ℕ, Bool, true, false, ◌&&◌, Option, none, some, or_else, List, [], ◌∷◌, ◌++◌, map, codes, String,
  str_eq, text_eq, if◌then◌else◌,
}
use qbo_invoice_sync.Common.Int.{ℤ}
use qbo_invoice_sync.Errors.{SyncError, plain_error, transient_provider_error, Result, ok, err}
use qbo_invoice_sync.Action.{Action, pure, or_raise, traverse, ◌>>=◌, ◌>>◌}
use qbo_invoice_sync.Texts.{escape_quotes}
use qbo_invoice_sync.Invoice.{CanonicalInvoice, PaymentAllocation, CanonicalPayment}
use qbo_invoice_sync.Provider.{ExternalInvoiceState, ExternalPaymentState, AccountingProvider}
use qbo_invoice_sync.QuickBooks.{
  QboConfig, QboInvoiceJson, QboPaymentJson, Reply, Body, invoice_body, void_body, payment_body,
  Outside, Qbo,
}
use qbo_invoice_sync.Webhooks
use qbo_invoice_sync.Webhooks.{ProviderWebhookEvent, WebhookPayload, parse_webhook}
use qbo_invoice_sync.QuickBooks.Auth.{not_json}
use qbo_invoice_sync.QuickBooks.Client.{get, query, post}
use qbo_invoice_sync.QuickBooks.Fields.{type_error, truthy, first_of}
use qbo_invoice_sync.QuickBooks.Mapper.{
  linked_invoice_allocations, to_qbo_invoice_body, from_qbo_invoice, to_qbo_payment_body,
  from_qbo_payment,
}

abbrev pub unresolved : SyncError
unresolved = record {
  kind = transient_provider_error;
  message = "QBO payment line links an invoice that could not be resolved to a DocNumber; retrying";
}

abbrev pub invoice_missing : SyncError
invoice_missing = record {
  kind = plain_error;
  message = "QBO invoice not found while creating payment";
}

-- `result?.Invoice`
abbrev pub invoice_of : Option Reply → Option QboInvoiceJson
invoice_of none = none
invoice_of (some r) = r.invoice

abbrev pub payment_of : Option Reply → Option QboPaymentJson
payment_of none = none
payment_of (some r) = r.payment

-- `invoice?.DocNumber`, where it is there and not empty
abbrev pub number_of : Option QboInvoiceJson → Option String
number_of none = none
number_of (some q) = truthy q.doc_number

module _ {N : Type 0} (config : QboConfig) (out : Outside N) where
  abbrev pub invoice_path : String → List ℕ
  invoice_path id = codes "/invoice/" ++ codes id

  abbrev pub to_invoice_state : QboInvoiceJson → Action (Qbo N) ExternalInvoiceState
  to_invoice_state qbo = do
    invoice ← from_qbo_invoice config out qbo
    pure (record { external_id = qbo.id; sync_token = qbo.sync_token; invoice = some invoice })

  abbrev pub invoice_if_found : Option QboInvoiceJson → Action (Qbo N) (Option ExternalInvoiceState)
  invoice_if_found none = pure none
  invoice_if_found (some qbo) = do state ← to_invoice_state qbo; pure (some state)

  unfoldable pub get_invoice : String → Action (Qbo N) (Option ExternalInvoiceState)
  unfolding get from_qbo_invoice
  get_invoice id = do
    result ← get config out (invoice_path id)
    invoice_if_found (invoice_of result)

  unfoldable pub find_invoice_by_doc_number : String → Action (Qbo N) (Option ExternalInvoiceState)
  unfolding query from_qbo_invoice escape_quotes
  find_invoice_by_doc_number doc_number = do
    result ← query config out (
        codes "SELECT * FROM Invoice WHERE DocNumber = '"
        ++ (escape_quotes (codes doc_number) ++ codes "'"))
    invoice_if_found (first_of result.invoices)

  abbrev pub written : Reply → Action (Qbo N) ExternalInvoiceState
  written reply = do qbo ← or_raise type_error reply.invoice; to_invoice_state qbo

  abbrev pub write_invoice :
      CanonicalInvoice → Option (String × String) → Action (Qbo N) ExternalInvoiceState
  write_invoice invoice existing = do
    body ← to_qbo_invoice_body config out invoice existing
    result ← post config out (codes "/invoice") (invoice_body body)
    written result

  unfoldable pub create_invoice : CanonicalInvoice → Action (Qbo N) ExternalInvoiceState
  unfolding to_qbo_invoice_body post from_qbo_invoice
  create_invoice invoice = write_invoice invoice none

  unfoldable pub update_invoice :
      String → String → CanonicalInvoice → Action (Qbo N) ExternalInvoiceState
  unfolding to_qbo_invoice_body post from_qbo_invoice
  update_invoice id sync_token invoice = write_invoice invoice (some (id, sync_token))

  unfoldable pub void_invoice : String → String → Action (Qbo N) ExternalInvoiceState
  unfolding post from_qbo_invoice
  void_invoice id sync_token = do
    result ← post config out (codes "/invoice?operation=void") (void_body id sync_token)
    written result

  -- The number of the invoice that an allocation is made to, which must be found.
  unfoldable pub resolve_allocation : String × ℤ → Action (Qbo N) PaymentAllocation
  unfolding get
  resolve_allocation (txn_id, amount_cents) = do
    result ← get config out (invoice_path txn_id)
    doc_number ← or_raise unresolved (number_of (invoice_of result))
    pure (record { invoice_doc_number = doc_number; amount_cents = amount_cents })

  unfoldable pub to_payment_state : QboPaymentJson → Action (Qbo N) ExternalPaymentState
  unfolding linked_invoice_allocations resolve_allocation from_qbo_payment
  to_payment_state qbo = do
    linked ← linked_invoice_allocations config out qbo
    allocations ← traverse resolve_allocation linked
    payment ← from_qbo_payment config out qbo allocations
    pure (record { external_id = qbo.id; sync_token = qbo.sync_token; payment = some payment })

  abbrev pub payment_if_found : Option QboPaymentJson → Action (Qbo N) (Option ExternalPaymentState)
  payment_if_found none = pure none
  payment_if_found (some qbo) = do state ← to_payment_state qbo; pure (some state)

  unfoldable pub get_payment : String → Action (Qbo N) (Option ExternalPaymentState)
  unfolding get to_payment_state
  get_payment id = do
    result ← get config out (codes "/payment/" ++ codes id)
    payment_if_found (payment_of result)

  unfoldable pub find_payment_by_reference : List ℕ → Action (Qbo N) (Option ExternalPaymentState)
  unfolding query to_payment_state escape_quotes
  find_payment_by_reference reference_code = do
    result ← query config out (
        codes "SELECT * FROM Payment WHERE PaymentRefNum = '"
        ++ (escape_quotes reference_code ++ codes "'"))
    payment_if_found (first_of result.payments)

  unfoldable pub create_payment : CanonicalPayment → String → Action (Qbo N) ExternalPaymentState
  unfolding get to_qbo_payment_body post to_payment_state
  create_payment payment invoice_id = do
    found ← get config out (invoice_path invoice_id)
    invoice ← or_raise invoice_missing (invoice_of found)
    body ← to_qbo_payment_body config out payment invoice
    result ← post config out (codes "/payment") (payment_body body)
    qbo ← or_raise type_error result.payment
    to_payment_state qbo

  abbrev pub parsed_payload : String → Option WebhookPayload → Result (List ProviderWebhookEvent)
  parsed_payload now none = err not_json
  parsed_payload now (some payload) = ok (parse_webhook now payload)

  abbrev pub qbo_provider : AccountingProvider (Qbo N)
  qbo_provider = record {
    name = "quickbooks";
    get_invoice = get_invoice;
    find_invoice_by_doc_number = find_invoice_by_doc_number;
    create_invoice = create_invoice;
    update_invoice = update_invoice;
    void_invoice = void_invoice;
    get_payment = get_payment;
    find_payment_by_reference = find_payment_by_reference;
    create_payment = create_payment;
    verify_webhook_signature =
        Webhooks.verify_webhook_signature out.hmac config.webhook_verifier_token;
    parse_webhook = λ now raw_body. parsed_payload now (out.parse_payload raw_body);
  }
