-- ===== src/Provider.antt =====
-- The port for an external accounting system (src/providers/accountingProvider.ts): the
-- operations that the synchronisation and the webhook controller call, over a state of the
-- provider's own. `parse_webhook` is given the present time, as a text.
pub mod Fake
pub mod Locking
pub mod Recovery
mod Tests
use qbo_invoice_sync.Common.{ℕ, Bool, List, String, Option}
use qbo_invoice_sync.Action.{Action}
use qbo_invoice_sync.Errors.{Result}
use qbo_invoice_sync.Webhooks.{ProviderWebhookEvent}
use qbo_invoice_sync.Invoice.{CanonicalInvoice, CanonicalPayment}

-- The invoice is none where it was hard-deleted.
pub record ExternalInvoiceState : Type 0 where
  pub external_id : String
  pub sync_token : String
  pub invoice : Option CanonicalInvoice

pub record ExternalPaymentState : Type 0 where
  pub external_id : String
  pub sync_token : String
  pub payment : Option CanonicalPayment

pub record AccountingProvider (P : Type 0) : Type 0 where
  pub name : String
  pub get_invoice : String → Action P (Option ExternalInvoiceState)
  pub find_invoice_by_doc_number : String → Action P (Option ExternalInvoiceState)
  pub create_invoice : CanonicalInvoice → Action P ExternalInvoiceState
  pub update_invoice : String → String → CanonicalInvoice → Action P ExternalInvoiceState
  pub void_invoice : String → String → Action P ExternalInvoiceState
  pub get_payment : String → Action P (Option ExternalPaymentState)
  pub find_payment_by_reference : List ℕ → Action P (Option ExternalPaymentState)
  pub create_payment : CanonicalPayment → String → Action P ExternalPaymentState
  pub verify_webhook_signature : List ℕ → Option (List ℕ) → Bool
  pub parse_webhook : String → List ℕ → Result (List ProviderWebhookEvent)
