-- ===== src/Ledger.antt =====
-- The internal invoicing system: the tables behind
-- src/models/repositories/internalInvoiceRepository.ts, what it reads from them, and the payment
-- status that it derives. The constraints are those of src/models/db/migrations/.
pub mod Editing
pub mod Applying
pub mod Once
pub mod Status
pub mod Derived
pub mod Operations
pub mod Insertions
pub mod Steps
mod Tests
use qbo_invoice_sync.Common.{
  ℕ, suc, ◌+◌, ◌≡◌, refl, Bool, true, false, not, ◌&&◌, ◌||◌, Option, none, some, or_else, is_some,
  List, [], ◌∷◌, ◌++◌, map, find, take, String, str_eq, ltb, leb, ◌==◌, if◌then◌else◌,
}
use qbo_invoice_sync.Common.Int.{ℤ, pos, ◌+ℤ◌, ◌-ℤ◌, ◌*ℤ◌, leb_ℤ, ltb_ℤ}
use qbo_invoice_sync.Errors.{SyncError, plain_error, Result, ok, err}
use qbo_invoice_sync.Action.{Action, pure, raise, gets, modify, guard, or_raise, ◌>>=◌, ◌>>◌}
use qbo_invoice_sync.Invoice.{
  Date, InvoiceStatus, open_status, partial, paid, CanonicalLine, CanonicalInvoice, sort_lines,
}
use qbo_invoice_sync.Invoice

pub record Customer : Type 0 where
  pub id : String
  pub name : String

pub record InvoiceRow : Type 0 where
  pub id : String
  pub doc_number : String
  pub customer_id : String
  pub status : InvoiceStatus
  pub currency : String
  pub notes : Option String
  pub total_cents : ℤ
  pub version : ℕ
  pub created_at : ℕ
  pub updated_at : ℕ

pub record LineRow : Type 0 where
  pub invoice_id : String
  pub line : CanonicalLine

pub record PaymentRow : Type 0 where
  pub id : String
  pub invoice_id : String
  pub amount_cents : ℤ
  pub method : String
  pub received_at : Date
  pub external_ref : Option String

pub record Ledger : Type 0 where
  pub customers : List Customer
  pub invoices : List InvoiceRow
  pub lines : List LineRow
  pub payments : List PaymentRow
  pub doc_number_seq : ℕ

pub record PaymentView : Type 0 where
  pub id : String
  pub amount_cents : ℤ
  pub method : String
  pub received_at : Date

pub record InternalInvoice : Type 0 where
  pub id : String
  pub doc_number : String
  pub customer_id : String
  pub customer_name : String
  pub status : InvoiceStatus
  pub currency : String
  pub notes : Option String
  pub total_cents : ℤ
  pub balance_cents : ℤ
  pub version : ℕ
  pub updated_at : ℕ
  pub lines : List CanonicalLine
  pub payments : List PaymentView

-- What an operation reads from outside: the program's clock, the database's, and the ids that
-- `gen_random_uuid()` and `randomUUID()` would make.
pub record Fresh : Type 0 where
  pub now : ℕ
  pub db_now : ℕ
  pub id : String
  pub customer_id : String

-- A transaction that throws leaves the tables as they were; a sequence does not go back.
abbrev pub settle : {A : Type 0} → Ledger → Result A × Ledger → Result A × Ledger
settle l (ok a, m) = (ok a, m)
settle l (err e, m) = (err e, record l { doc_number_seq = m.doc_number_seq })

abbrev pub transaction : {A : Type 0} → Action Ledger A → Action Ledger A
transaction body l = settle l (body l)

abbrev pub not_found : SyncError
not_found = record { kind = plain_error; message = "invoice not found" }

abbrev pub not_editable : SyncError
not_editable = record { kind = plain_error; message = "invoice cannot be edited" }

abbrev pub no_result : SyncError
no_result = record { kind = plain_error; message = "no result" }

abbrev pub constraint_violation : SyncError
constraint_violation = record { kind = plain_error; message = "constraint violation" }

abbrev pub key_required : SyncError
key_required = record { kind = plain_error; message = "id or docNumber required" }

abbrev pub is_dead : InvoiceStatus → Bool
is_dead Invoice.InvoiceStatus.voided = true
is_dead Invoice.InvoiceStatus.deleted = true
is_dead _ = false

unfoldable pub find_invoice : String → List InvoiceRow → Option InvoiceRow
find_invoice id [] = none
find_invoice id (r ∷ rs) = if str_eq r.id id then some r else find_invoice id rs

unfoldable pub find_by_doc_number : String → List InvoiceRow → Option InvoiceRow
find_by_doc_number doc [] = none
find_by_doc_number doc (r ∷ rs) =
    if str_eq r.doc_number doc then some r else find_by_doc_number doc rs

unfoldable pub update_invoices :
    String → (InvoiceRow → InvoiceRow) → List InvoiceRow → List InvoiceRow
update_invoices id f [] = []
update_invoices id f (r ∷ rs) = (if str_eq r.id id then f r else r) ∷ update_invoices id f rs

abbrev pub update_invoice : String → (InvoiceRow → InvoiceRow) → Action Ledger Unit
update_invoice id f = modify (λ l. record l { invoices = update_invoices id f l.invoices })

unfoldable pub payments_of : String → List PaymentRow → List PaymentRow
payments_of id [] = []
payments_of id (p ∷ ps) =
    if str_eq p.invoice_id id then p ∷ payments_of id ps else payments_of id ps

unfoldable pub sum_payments : List PaymentRow → ℤ
sum_payments [] = pos 0
sum_payments (p ∷ ps) = p.amount_cents +ℤ sum_payments ps

unfoldable pub lines_of : String → List LineRow → List CanonicalLine
lines_of id [] = []
lines_of id (r ∷ rs) = if str_eq r.invoice_id id then r.line ∷ lines_of id rs else lines_of id rs

unfoldable pub find_customer : String → List Customer → Option Customer
find_customer id [] = none
find_customer id (c ∷ cs) = if str_eq c.id id then some c else find_customer id cs

-- `ORDER BY received_at`; the column holds valid dates only.
abbrev pub received_first : PaymentRow → PaymentRow → Bool
received_first p q = leb (or_else p.received_at 0) (or_else q.received_at 0)

abbrev pub insert_payment : PaymentRow → List PaymentRow → List PaymentRow
insert_payment p [] = p ∷ []
insert_payment p (q ∷ qs) = if received_first p q then p ∷ q ∷ qs else q ∷ insert_payment p qs

unfoldable pub sort_payments : List PaymentRow → List PaymentRow
sort_payments [] = []
sort_payments (p ∷ ps) = insert_payment p (sort_payments ps)

abbrev pub view_payment : PaymentRow → PaymentView
view_payment p = record {
  id = p.id;
  amount_cents = p.amount_cents;
  method = p.method;
  received_at = p.received_at;
}

-- The object that `fetchFull` builds of a row, its customer, and what hangs on it.
unfoldable pub full_invoice : Ledger → InvoiceRow → Customer → InternalInvoice
unfolding payments_of sum_payments lines_of sort_payments
full_invoice l row customer = record {
  id = row.id;
  doc_number = row.doc_number;
  customer_id = row.customer_id;
  customer_name = customer.name;
  status = row.status;
  currency = row.currency;
  notes = row.notes;
  total_cents = row.total_cents;
  balance_cents =
      if is_dead row.status
      then pos 0
      else row.total_cents -ℤ sum_payments (sort_payments (payments_of row.id l.payments));
  version = row.version;
  updated_at = row.updated_at;
  lines = sort_lines (lines_of row.id l.lines);
  payments = map view_payment (sort_payments (payments_of row.id l.payments));
}

-- The inner join with the customers, and the rest of `fetchFull`.
abbrev pub joined : Ledger → Option InvoiceRow → Option InternalInvoice
joined l none = none
joined l (some row) = elim (find_customer row.customer_id l.customers) [
  | none ↦ none
  | some c ↦ some (full_invoice l row c)
]

pub data By : Type 0 where
  by_id by_doc_number : String → By

unfoldable pub fetch_full : By → Action Ledger (Option InternalInvoice)
unfolding find_invoice find_by_doc_number find_customer full_invoice
fetch_full (by_id id) l =
    (if str_eq id "" then err key_required else ok (joined l (find_invoice id l.invoices)), l)
fetch_full (by_doc_number doc) l = (
  if str_eq doc "" then err key_required else ok (joined l (find_by_doc_number doc l.invoices)),
  l,
)

unfoldable pub must_get : String → Action Ledger InternalInvoice
unfolding fetch_full
must_get id = do invoice ← fetch_full (by_id id); or_raise not_found invoice

-- open, partial or paid, by the payments
abbrev pub payment_status : ℤ → ℤ → InvoiceStatus
payment_status total paid_cents =
    if leb_ℤ paid_cents (pos 0)
    then open_status
    else if leb_ℤ total paid_cents
    then paid
    else partial

abbrev pub set_status : InvoiceStatus → InvoiceRow → InvoiceRow
set_status status r = record r { status = status }

-- `recomputePaymentStatus`, the row being found.
abbrev pub recompute : Ledger → InvoiceRow → Ledger
recompute l row = if is_dead row.status then l else record l {
  invoices =
      update_invoices row.id
        (set_status (payment_status row.total_cents (sum_payments (payments_of row.id l.payments))))
        l.invoices;
}

abbrev pub recompute_row : Ledger → Option InvoiceRow → Result {0} Unit × Ledger
recompute_row l none = (err no_result, l)
recompute_row l (some row) = (ok tt, recompute l row)

unfoldable pub recompute_payment_status : String → Action Ledger Unit
unfolding find_invoice update_invoices payments_of sum_payments
recompute_payment_status id l = recompute_row l (find_invoice id l.invoices)
