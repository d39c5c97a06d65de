-- ===== src/Invoice.antt =====
-- The canonical invoice and its comparable part (src/models/invoice.ts).
pub mod Sorting
pub mod Snapshots
pub mod Content
mod Tests
use qbo_invoice_sync.Common.{
  ℕ, String, codes, List, [], ◌∷◌, map, take, Option, none, some, Bool, ltb, leb, ◌==◌,
  if◌then◌else◌,
}
use qbo_invoice_sync.Common.Int.{ℤ, pos}
use qbo_invoice_sync.Json.{
  Json, null, num, str, arr, obj, Items, nil, cons, Fields, end, field, stable_stringify,
}

-- The instant of a `Date` in milliseconds; none is an invalid date, whose `getTime()` is NaN.
abbrev pub Date : Type 0
Date = Option ℕ

pub data InvoiceStatus : Type 0 where
  open_status partial paid voided deleted : InvoiceStatus

pub record CanonicalLine : Type 0 where
  pub line_no : ℕ
  pub item_code : String
  pub description : Option String
  pub quantity : ℤ
  pub unit_price_cents : ℤ
  pub amount_cents : ℤ

-- The ISO text `sourceUpdatedAt` is kept as the date that it denotes.
pub record CanonicalInvoice : Type 0 where
  pub doc_number : String
  pub customer_name : String
  pub status : InvoiceStatus
  pub currency : String
  pub notes : Option String
  pub lines : List CanonicalLine
  pub total_cents : ℤ
  pub balance_cents : ℤ
  pub source_updated_at : Date

pub record PaymentAllocation : Type 0 where
  pub invoice_doc_number : String
  pub amount_cents : ℤ

pub record CanonicalPayment : Type 0 where
  pub amount_cents : ℤ
  pub method : Option String
  pub received_at : Date
  pub allocations : List PaymentAllocation
  pub reference_code : Option (List ℕ)

drop_dashes : List ℕ → List ℕ
drop_dashes [] = []
drop_dashes (c ∷ s) = if c == b'-' then drop_dashes s else c ∷ drop_dashes s

-- `internalPaymentId.replace(/-/g, "").slice(0, 20)`
unfoldable pub payment_reference_code : String → List ℕ
unfolding drop_dashes
payment_reference_code id = take 20 (drop_dashes (codes id))

pub data Lifecycle : Type 0 where
  active : Lifecycle
  voided deleted : Lifecycle

pub record ComparableInvoice : Type 0 where
  pub doc_number : String
  pub customer_name : String
  pub lifecycle : Lifecycle
  pub currency : String
  pub notes : Option String
  pub total_cents : ℤ
  pub lines : List CanonicalLine

abbrev pub lifecycle_of : InvoiceStatus → Lifecycle
lifecycle_of InvoiceStatus.voided = Lifecycle.voided
lifecycle_of InvoiceStatus.deleted = Lifecycle.deleted
lifecycle_of _ = active

-- The stable sort by `a.lineNo - b.lineNo`.
unfoldable pub insert_line : CanonicalLine → List CanonicalLine → List CanonicalLine
insert_line l [] = l ∷ []
insert_line l (m ∷ ms) = if leb l.line_no m.line_no then l ∷ m ∷ ms else m ∷ insert_line l ms

unfoldable pub sort_lines : List CanonicalLine → List CanonicalLine
unfolding insert_line
sort_lines [] = []
sort_lines (l ∷ ls) = insert_line l (sort_lines ls)

abbrev pub copy_line : CanonicalLine → CanonicalLine
copy_line l = record {
  line_no = l.line_no;
  item_code = l.item_code;
  description = l.description;
  quantity = l.quantity;
  unit_price_cents = l.unit_price_cents;
  amount_cents = l.amount_cents;
}

unfoldable pub to_comparable : CanonicalInvoice → ComparableInvoice
to_comparable invoice = record {
  doc_number = invoice.doc_number;
  customer_name = invoice.customer_name;
  lifecycle = lifecycle_of invoice.status;
  currency = invoice.currency;
  notes = invoice.notes;
  total_cents = invoice.total_cents;
  lines = map copy_line (sort_lines invoice.lines);
}

abbrev pub lifecycle_text : Lifecycle → String
lifecycle_text active = "active"
lifecycle_text Lifecycle.voided = "voided"
lifecycle_text Lifecycle.deleted = "deleted"

abbrev pub nullable : Option String → Json
nullable none = null
nullable (some s) = str s

-- The values as `stableStringify` meets them, their properties in the order of the literals.
abbrev pub line_json : CanonicalLine → Json
line_json l = obj (
    field "lineNo" (num (pos l.line_no)) (
      field "itemCode" (str l.item_code) (
        field "description" (nullable l.description) (
          field "quantity" (num l.quantity) (
            field "unitPriceCents" (num l.unit_price_cents)
              (field "amountCents" (num l.amount_cents) end))))))

abbrev pub lines_json : List CanonicalLine → Items
lines_json [] = nil
lines_json (l ∷ ls) = cons (line_json l) (lines_json ls)

abbrev pub comparable_json : ComparableInvoice → Json
comparable_json c = obj (
    field "docNumber" (str c.doc_number) (
      field "customerName" (str c.customer_name) (
        field "lifecycle" (str (lifecycle_text c.lifecycle)) (
          field "currency" (str c.currency) (
            field "notes" (nullable c.notes) (
              field "totalCents" (num c.total_cents)
                (field "lines" (arr (lines_json c.lines)) end)))))))

-- `stableStringify(comparable)`
unfoldable pub comparable_text : ComparableInvoice → List ℕ
comparable_text c = stable_stringify (comparable_json c)

-- `createHash("sha256").update(…).digest("hex")`: the digest of the runtime, from the text to its
-- hexadecimal text, is a parameter.
unfoldable pub snapshot_hash : (List ℕ → List ℕ) → ComparableInvoice → List ℕ
snapshot_hash sha256 c = sha256 (comparable_text c)
