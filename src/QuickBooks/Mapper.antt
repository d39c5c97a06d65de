-- ===== src/QuickBooks/Mapper.antt =====
-- src/providers/quickbooks/qboMapper.ts: canonical invoices and payments, and how QuickBooks spells
-- them.
pub mod Literals
pub mod Sending
pub mod RoundTrip
mod Tests
use Prim.Native.String.{◌++◌ as text_append}
use qbo_invoice_sync.Common.{
  ℕ, suc, ◌+◌, ◌-◌, ◌*◌, ◌/◌, ◌%◌, Bool, true, false, ◌&&◌, ◌||◌, Option, none, some, or_else, List,
  [], ◌∷◌, ◌++◌, map, codes, String, str_eq, if◌then◌else◌,
}
use qbo_invoice_sync.Common.Int.{ℤ, pos, ltb_ℤ, leb_ℤ, eqb_ℤ}
use qbo_invoice_sync.Errors.{SyncError, plain_error, permanent_provider_error, Result, ok, err}
use qbo_invoice_sync.Action.{
  Action, pure, raise, gets, modify, or_raise, lift, traverse, prepend, ◌>>=◌, ◌>>◌,
}
use qbo_invoice_sync.Money.{cents_to_decimal_string}
use qbo_invoice_sync.Numbers.{Number, whole, number, number_to_cents, round}
use qbo_invoice_sync.Texts.{includes_text, escape_quotes}
use qbo_invoice_sync.Invoice.{
  Date, InvoiceStatus, open_status, partial, paid, CanonicalLine, CanonicalInvoice,
  PaymentAllocation, CanonicalPayment,
}
use qbo_invoice_sync.Invoice
use qbo_invoice_sync.Items.{ItemRow, get_external_item_id, get_item_code, upsert}
use qbo_invoice_sync.QuickBooks.{
  QboConfig, QboRef, QboLineDetail, QboLine, QboInvoiceJson, LinkedTxn, QboPaymentLine,
  QboPaymentJson, QboCustomerJson, QboItemJson, QueryResponse, Reply, QboLineBody, QboInvoiceBody,
  QboPaymentBody, customer_body, Outside, Qbo, time_of, read_time,
}
use qbo_invoice_sync.QuickBooks.Client.{get, query, post}
use qbo_invoice_sync.QuickBooks.Fields.{
  type_error, no_item_mapping, truthy, first_of, as_number, amount_number, cents_of_amount,
  is_sales_line, sales_lines, no_detail, ref_value, ref_name, is_voided, status_of, invoice_txn,
  linked_invoice, line_allocation, line_allocations, day_of, numbered,
}

module _ {N : Type 0} (config : QboConfig) (out : Outside N) where
  abbrev pub read_allocation : String × Option Number → Action (Qbo N) (String × ℤ)
  read_allocation (id, amount) = do cents ← lift (cents_of_amount amount); pure (id, cents)

  unfoldable pub linked_invoice_allocations : QboPaymentJson → Action (Qbo N) (List (String × ℤ))
  unfolding line_allocations cents_of_amount
  linked_invoice_allocations qbo = traverse read_allocation (line_allocations (or_else qbo.line []))

  abbrev pub customer_query : String → List ℕ
  customer_query name =
      codes "SELECT Id FROM Customer WHERE DisplayName = '"
      ++ (escape_quotes (codes name) ++ codes "'")

  abbrev pub item_query : String → List ℕ
  item_query code =
      codes "SELECT Id, Name FROM Item WHERE Name = '" ++ (escape_quotes (codes code) ++ codes "'")

  abbrev pub created_customer : String → Option QboCustomerJson → Action (Qbo N) String
  created_customer name (some c) = pure c.id
  created_customer name none = do
    created ← post config out (codes "/customer") (customer_body name)
    customer ← or_raise type_error created.customer
    pure customer.id

  -- Finds or creates the customer of that name.
  unfoldable pub ensure_customer : String → Action (Qbo N) String
  unfolding escape_quotes query post
  ensure_customer name = do
    result ← query config out (customer_query name)
    created_customer name (first_of result.customers)

  abbrev pub learn_item : String → QboItemJson → Action (Qbo N) String
  learn_item code found = do
    modify (λ w. record w {
      items =
          upsert
            (record {
              provider = "quickbooks";
              item_code = code;
              external_item_id = found.id;
              external_name = some found.name;
            })
            w.items;
    })
    pure found.id

  abbrev pub look_up_item : String → Option String → Action (Qbo N) String
  look_up_item code (some id) = pure id
  look_up_item code none = do
    result ← query config out (item_query code)
    found ← or_raise no_item_mapping (first_of result.items)
    learn_item code found

  unfoldable pub resolve_item_ref : String → Action (Qbo N) String
  unfolding get_external_item_id upsert query escape_quotes
  resolve_item_ref code = do
    mapped ← gets (λ w. truthy (get_external_item_id "quickbooks" code w.items))
    look_up_item code mapped

  abbrev pub to_qbo_line : CanonicalLine → Action (Qbo N) QboLineBody
  to_qbo_line line = do
    item_id ← resolve_item_ref line.item_code
    amount ← lift (amount_number line.amount_cents)
    unit_price ← lift (amount_number line.unit_price_cents)
    pure (record {
      amount = amount;
      description = line.description;
      item_id = item_id;
      qty = line.quantity;
      unit_price = unit_price;
    })

  unfoldable pub to_qbo_invoice_body :
      CanonicalInvoice → Option (String × String) → Action (Qbo N) QboInvoiceBody
  unfolding ensure_customer resolve_item_ref amount_number
  to_qbo_invoice_body invoice existing = do
    customer_id ← ensure_customer invoice.customer_name
    lines ← traverse to_qbo_line invoice.lines
    pure (record {
      existing = existing;
      doc_number = invoice.doc_number;
      customer_id = customer_id;
      private_note = invoice.notes;
      lines = lines;
    })

  abbrev pub mapped_code : String → Action (Qbo N) (Option String)
  mapped_code id = gets (λ w. if str_eq id "" then none else get_item_code "quickbooks" id w.items)

  abbrev pub code_of : Option String → Option QboRef → String
  code_of mapped ref =
      or_else mapped (or_else (ref_name ref) (text_append "qbo-item-" (or_else (ref_value ref) "")))

  abbrev pub from_qbo_line : ℕ × QboLine → Action (Qbo N) CanonicalLine
  from_qbo_line (line_no, line) =
      let detail = or_else line.sales_item_line_detail no_detail in
      do
        mapped ← mapped_code (or_else (ref_value detail.item_ref) "")
        unit_price ← lift (cents_of_amount detail.unit_price)
        amount ← lift (cents_of_amount line.amount)
        pure (record {
          line_no = line_no;
          item_code = code_of mapped detail.item_ref;
          description = line.description;
          quantity = round (or_else detail.qty (whole (pos 1)));
          unit_price_cents = unit_price;
          amount_cents = amount;
        })

  abbrev pub named_customer : Option Reply → String
  named_customer none = "Unknown customer"
  named_customer (some reply) = elim reply.customer [
    | none ↦ "Unknown customer"
    | some c ↦ or_else c.display_name "Unknown customer"
  ]

  unfoldable pub customer_name : Option String → Action (Qbo N) String
  unfolding get
  customer_name none = pure "Unknown customer"
  customer_name (some id) = do
    result ← get config out (codes "/customer/" ++ codes id)
    pure (named_customer result)

  abbrev pub customer_of : Option QboRef → Action (Qbo N) String
  customer_of ref = elim (ref_name ref) [
    | none ↦ customer_name (truthy (ref_value ref))
    | some name ↦ pure name
  ]

  -- `date ?? new Date().toISOString()`
  abbrev pub or_now : Option Date → Action (Qbo N) Date
  or_now (some date) = pure date
  or_now none = do now ← read_time out; pure (some now)

  unfoldable pub from_qbo_invoice : QboInvoiceJson → Action (Qbo N) CanonicalInvoice
  unfolding cents_of_amount is_voided sales_lines get_item_code round customer_name read_time
      status_of
  from_qbo_invoice qbo = do
    total ← lift (cents_of_amount qbo.total_amt)
    balance ← lift (cents_of_amount qbo.balance)
    lines ← traverse from_qbo_line (numbered 1 (sales_lines (or_else qbo.line [])))
    customer ← customer_of qbo.customer_ref
    updated_at ← or_now qbo.last_updated_time
    pure (record {
      doc_number = or_else qbo.doc_number "";
      customer_name = customer;
      status = status_of (is_voided total qbo.private_note) total balance;
      currency = or_else qbo.currency_ref "USD";
      notes = if is_voided total qbo.private_note then none else qbo.private_note;
      lines = lines;
      total_cents = total;
      balance_cents = balance;
      source_updated_at = updated_at;
    })

  unfoldable pub to_qbo_payment_body :
      CanonicalPayment → QboInvoiceJson → Action (Qbo N) QboPaymentBody
  unfolding amount_number
  to_qbo_payment_body payment invoice = do
    amount ← lift (amount_number payment.amount_cents)
    pure (record {
      total_amt = amount;
      customer_id = ref_value invoice.customer_ref;
      payment_ref_num = payment.reference_code;
      txn_date = day_of payment.received_at;
      line_amount = amount;
      txn_id = invoice.id;
    })

  abbrev pub first_date : Option Date → Option Date → Option Date
  first_date (some d) other = some d
  first_date none other = other

  unfoldable pub from_qbo_payment :
      QboPaymentJson → List PaymentAllocation → Action (Qbo N) CanonicalPayment
  unfolding cents_of_amount read_time
  from_qbo_payment qbo allocations = do
    amount ← lift (cents_of_amount qbo.total_amt)
    received_at ← or_now (first_date qbo.txn_date qbo.last_updated_time)
    pure (record {
      amount_cents = amount;
      method = none;
      received_at = received_at;
      allocations = allocations;
      reference_code = qbo.payment_ref_num;
    })
