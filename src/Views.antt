-- ===== src/Views.antt =====
-- The JSON shapes of the HTTP interface (src/views/). The text of a date is the runtime's.
use qbo_invoice_sync.Common.{ℕ, Option, some, List, String}
use qbo_invoice_sync.Common.Int.{ℤ}
use qbo_invoice_sync.Action.{Action, pure, lift, traverse, ◌>>=◌}
use qbo_invoice_sync.Json.{Json}
use qbo_invoice_sync.Invoice.{Date, InvoiceStatus, CanonicalLine}
use qbo_invoice_sync.Money.{cents_to_decimal_string}
use qbo_invoice_sync.Audit.{AuditAction, AuditRow}
use qbo_invoice_sync.Ledger.{InternalInvoice, PaymentView}

pub record LineView : Type 0 where
  pub line_no : ℕ
  pub item_code : String
  pub description : Option String
  pub quantity : ℤ
  pub unit_price : List ℕ
  pub amount : List ℕ

pub record PaidView : Type 0 where
  pub id : String
  pub amount : List ℕ
  pub method : String
  pub received_at : String

pub record InvoiceView : Type 0 where
  pub id : String
  pub doc_number : String
  pub customer_id : String
  pub customer_name : String
  pub status : InvoiceStatus
  pub currency : String
  pub notes : Option String
  pub total : List ℕ
  pub balance : List ℕ
  pub total_cents : ℤ
  pub balance_cents : ℤ
  pub version : ℕ
  pub updated_at : String
  pub lines : List LineView
  pub payments : List PaidView

pub record AuditView : Type 0 where
  pub id : ℕ
  pub inbound_event_id : Option ℕ
  pub entity_type : String
  pub internal_id : Option String
  pub external_id : Option String
  pub action : AuditAction
  pub detail : Option Json
  pub created_at : String

module _ (iso : Date → String) where
  abbrev pub line_view : CanonicalLine → Action Unit LineView
  line_view l = do
    unit_price ← lift (cents_to_decimal_string l.unit_price_cents)
    amount ← lift (cents_to_decimal_string l.amount_cents)
    pure (record {
      line_no = l.line_no;
      item_code = l.item_code;
      description = l.description;
      quantity = l.quantity;
      unit_price = unit_price;
      amount = amount;
    })

  abbrev pub payment_view : PaymentView → Action Unit PaidView
  payment_view p = do
    amount ← lift (cents_to_decimal_string p.amount_cents)
    pure (record { id = p.id; amount = amount; method = p.method; received_at = iso p.received_at })

  -- `invoiceView`, which throws where an amount is not a safe integer
  unfoldable pub invoice_view : InternalInvoice → Action Unit InvoiceView
  invoice_view invoice = do
    total ← lift (cents_to_decimal_string invoice.total_cents)
    balance ← lift (cents_to_decimal_string invoice.balance_cents)
    lines ← traverse line_view invoice.lines
    payments ← traverse payment_view invoice.payments
    pure (record {
      id = invoice.id;
      doc_number = invoice.doc_number;
      customer_id = invoice.customer_id;
      customer_name = invoice.customer_name;
      status = invoice.status;
      currency = invoice.currency;
      notes = invoice.notes;
      total = total;
      balance = balance;
      total_cents = invoice.total_cents;
      balance_cents = invoice.balance_cents;
      version = invoice.version;
      updated_at = iso (some invoice.updated_at);
      lines = lines;
      payments = payments;
    })

  -- `auditView`
  unfoldable pub audit_view : AuditRow → AuditView
  audit_view r = record {
    id = r.id;
    inbound_event_id = r.entry.inbound_event_id;
    entity_type = r.entry.entity_type;
    internal_id = r.entry.internal_id;
    external_id = r.entry.external_id;
    action = r.entry.action;
    detail = r.entry.detail;
    created_at = iso (some r.created_at);
  }
