-- ===== src/Ledger/Editing.antt =====
-- The operations of the internal system on its own records: `create`, `update`, `setLifecycle`,
-- `addPayment`, `getPayment` and the readings of
-- src/models/repositories/internalInvoiceRepository.ts.
use qbo_invoice_sync.Common.{
  ℕ, ◌+◌, Bool, false, not, ◌&&◌, ◌||◌, Option, none, some, or_else, is_some, List, [], ◌∷◌, ◌++◌,
  take, String, str_eq, leb, ◌==◌, if◌then◌else◌,
}
use Prim.Native.String.{◌++◌ as text_append}
use qbo_invoice_sync.Common.Int.{ℤ, pos, ◌+ℤ◌, ◌*ℤ◌, ltb_ℤ}
use qbo_invoice_sync.Errors.{ok}
use qbo_invoice_sync.Action.{Action, pure, gets, modify, guard, or_raise, ◌>>=◌, ◌>>◌}
use qbo_invoice_sync.Invoice.{
  Date, InvoiceStatus, open_status, Lifecycle, CanonicalLine, CanonicalInvoice,
}
use qbo_invoice_sync.Invoice
use qbo_invoice_sync.Ledger.{
  InvoiceRow, LineRow, PaymentRow, Ledger, InternalInvoice, Fresh, transaction, not_found,
  not_editable, constraint_violation, is_dead, find_invoice, find_by_doc_number, update_invoice,
  find_customer, by_id, by_doc_number, fetch_full, joined, must_get, recompute_payment_status,
}

pub record LineInput : Type 0 where
  pub item_code : String
  pub description : Option String
  pub quantity : ℤ
  pub unit_price_cents : ℤ

pub record InternalInvoiceInput : Type 0 where
  pub doc_number : Option String
  pub customer_id : String
  pub currency : Option String
  pub notes : Option String
  pub lines : List LineInput

-- An absent change is none; `notes` may be changed to null.
pub record InvoiceChanges : Type 0 where
  pub customer_id : Option String
  pub currency : Option String
  pub notes : Option (Option String)
  pub lines : Option (List LineInput)

pub record PaymentInput : Type 0 where
  pub amount_cents : ℤ
  pub method : Option String
  pub received_at : Option Date

-- The lines from number `n` on.
unfoldable pub number_lines : ℕ → List LineInput → List CanonicalLine
number_lines n [] = []
number_lines n (l ∷ ls) =
    record {
      line_no = n;
      item_code = l.item_code;
      description = l.description;
      quantity = l.quantity;
      unit_price_cents = l.unit_price_cents;
      amount_cents = l.quantity *ℤ l.unit_price_cents;
    }
    ∷ number_lines (n + 1) ls

unfoldable pub normalize_lines : List LineInput → List CanonicalLine
unfolding number_lines
normalize_lines ls = number_lines 1 ls

-- `lines.reduce((sum, l) => sum + l.amount_cents, 0)`
unfoldable pub total_of : ℤ → List CanonicalLine → ℤ
total_of sum [] = sum
total_of sum (l ∷ ls) = total_of (sum +ℤ l.amount_cents) ls

unfoldable pub has_line_no : ℕ → List CanonicalLine → Bool
has_line_no n [] = false
has_line_no n (l ∷ ls) = (l.line_no == n) || has_line_no n ls

-- The unique index on `(invoice_id, line_no)`, where the invoice has no lines yet.
unfoldable pub lines_clash : List CanonicalLine → Bool
unfolding has_line_no
lines_clash [] = false
lines_clash (l ∷ ls) = has_line_no l.line_no ls || lines_clash ls

unfoldable pub line_rows : String → List CanonicalLine → List LineRow
line_rows id [] = []
line_rows id (l ∷ ls) = record { invoice_id = id; line = l } ∷ line_rows id ls

-- `insertLines`, for an invoice without lines
unfoldable pub insert_lines : String → List CanonicalLine → Action Ledger Unit
unfolding lines_clash line_rows
insert_lines id ls = do
  guard (not (lines_clash ls)) constraint_violation
  modify (λ l. record l { lines = l.lines ++ line_rows id ls })

unfoldable pub drop_lines : String → List LineRow → List LineRow
drop_lines id [] = []
drop_lines id (r ∷ rs) = if str_eq r.invoice_id id then drop_lines id rs else r ∷ drop_lines id rs

-- `DELETE FROM invoice_lines WHERE invoice_id = …`
abbrev pub delete_lines : String → Action Ledger Unit
delete_lines id = modify (λ l. record l { lines = drop_lines id l.lines })

abbrev pub customer_known : String → Ledger → Bool
customer_known id l = is_some (find_customer id l.customers)

-- `INSERT INTO invoices`, under the key, the unique number and the reference to the customer
unfoldable pub insert_invoice : InvoiceRow → Action Ledger Unit
unfolding find_invoice find_by_doc_number find_customer
insert_invoice row = do
  l ← gets (λ l. l)
  guard (not (is_some (find_invoice row.id l.invoices))) constraint_violation
  guard (not (is_some (find_by_doc_number row.doc_number l.invoices))) constraint_violation
  guard (customer_known row.customer_id l) constraint_violation
  modify (λ l. record l { invoices = l.invoices ++ (row ∷ []) })

-- `INV-${nextval('doc_number_seq')}`; how a number is printed is the language's own.
unfoldable pub next_doc_number : (ℕ → String) → Action Ledger String
next_doc_number print l = (
  ok (text_append "INV-" (print l.doc_number_seq)),
  record l { doc_number_seq = l.doc_number_seq + 1 },
)

abbrev pub doc_number_for : (ℕ → String) → Option String → Action Ledger String
doc_number_for print none = next_doc_number print
doc_number_for print (some doc) = pure doc

unfoldable pub create : (ℕ → String) → Fresh → InternalInvoiceInput → Action Ledger InternalInvoice
unfolding next_doc_number insert_invoice insert_lines must_get normalize_lines total_of
create print t input = transaction do
  doc_number ← doc_number_for print input.doc_number
  insert_invoice (record {
    id = t.id;
    doc_number = doc_number;
    customer_id = input.customer_id;
    status = open_status;
    currency = or_else input.currency "USD";
    notes = input.notes;
    total_cents = total_of (pos 0) (normalize_lines input.lines);
    version = 1;
    created_at = t.db_now;
    updated_at = t.db_now;
  })
  insert_lines t.id (normalize_lines input.lines)
  must_get t.id

-- The new lines, if the change has some, and the total then.
abbrev pub replace_lines : String → ℤ → Option (List LineInput) → Action Ledger ℤ
replace_lines id total none = pure total
replace_lines id total (some ls) = do
  delete_lines id
  insert_lines id (normalize_lines ls)
  pure (total_of (pos 0) (normalize_lines ls))

abbrev pub edit_row : Fresh → InvoiceChanges → ℤ → InvoiceRow → InvoiceRow
edit_row t changes total r = record r {
  customer_id = or_else changes.customer_id r.customer_id;
  currency = or_else changes.currency r.currency;
  notes = or_else changes.notes r.notes;
  total_cents = total;
  version = r.version + 1;
  updated_at = t.now;
}

unfoldable pub update : Fresh → String → InvoiceChanges → Action Ledger InternalInvoice
unfolding find_invoice insert_lines recompute_payment_status must_get normalize_lines total_of
update t id changes = transaction do
  found ← gets (λ l. find_invoice id l.invoices)
  current ← or_raise not_found found
  guard (not (is_dead current.status)) not_editable
  total ← replace_lines id current.total_cents changes.lines
  known ← gets (λ l. customer_known (or_else changes.customer_id current.customer_id) l)
  guard known constraint_violation
  update_invoice id (edit_row t changes total)
  recompute_payment_status id
  must_get id

abbrev pub get : String → Action Ledger (Option InternalInvoice)
get id = fetch_full (by_id id)

abbrev pub get_by_doc_number : String → Action Ledger (Option InternalInvoice)
get_by_doc_number doc = fetch_full (by_doc_number doc)

-- The terminal lifecycles that `setLifecycle` takes.
pub data Terminal : Type 0 where
  to_voided to_deleted : Terminal

abbrev pub terminal_status : Terminal → InvoiceStatus
terminal_status to_voided = Invoice.InvoiceStatus.voided
terminal_status to_deleted = Invoice.InvoiceStatus.deleted

abbrev pub end_row : Fresh → Terminal → InvoiceRow → InvoiceRow
end_row t status r = record r {
  status = terminal_status status;
  version = r.version + 1;
  updated_at = t.now;
}

unfoldable pub set_lifecycle : Fresh → String → Terminal → Action Ledger InternalInvoice
unfolding find_invoice must_get
set_lifecycle t id status = transaction do
  found ← gets (λ l. find_invoice id l.invoices)
  current ← or_raise not_found found
  update_invoice id (end_row t status)
  must_get id

abbrev pub bump_row : Fresh → InvoiceRow → InvoiceRow
bump_row t r = record r { version = r.version + 1; updated_at = t.now }

abbrev pub bump_version : Fresh → String → Action Ledger Unit
bump_version t id = update_invoice id (bump_row t)

abbrev pub payment_row : Fresh → String → PaymentInput → Option String → PaymentRow
payment_row t invoice_id payment ref = record {
  id = t.id;
  invoice_id = invoice_id;
  amount_cents = payment.amount_cents;
  method = or_else payment.method "other";
  received_at = or_else payment.received_at (some t.now);
  external_ref = ref;
}

-- `CHECK (amount_cents > 0)`, a date that the column can hold, and the reference to the invoice
abbrev pub payment_allowed : PaymentRow → Ledger → Bool
payment_allowed p l =
    ltb_ℤ (pos 0) p.amount_cents
    && (is_some p.received_at && is_some (find_invoice p.invoice_id l.invoices))

unfoldable pub add_payment :
    Fresh → String → PaymentInput → Action Ledger (InternalInvoice × String)
unfolding find_invoice recompute_payment_status must_get
add_payment t invoice_id payment = transaction do
  allowed ← gets (payment_allowed (payment_row t invoice_id payment none))
  guard allowed constraint_violation
  modify (λ l. record l { payments = l.payments ++ (payment_row t invoice_id payment none ∷ []) })
  bump_version t invoice_id
  recompute_payment_status invoice_id
  invoice ← must_get invoice_id
  pure (invoice, t.id)

unfoldable pub find_payment : String → List PaymentRow → Option PaymentRow
find_payment id [] = none
find_payment id (p ∷ ps) = if str_eq p.id id then some p else find_payment id ps

abbrev pub get_payment : String → Action Ledger (Option PaymentRow)
get_payment id l = (ok (find_payment id l.payments), l)

-- `list`: the newest invoices, with what hangs on them
abbrev pub insert_newest : InvoiceRow → List InvoiceRow → List InvoiceRow
insert_newest r [] = r ∷ []
insert_newest r (s ∷ ss) =
    if leb s.created_at r.created_at then r ∷ s ∷ ss else s ∷ insert_newest r ss

abbrev pub newest_first : List InvoiceRow → List InvoiceRow
newest_first [] = []
newest_first (r ∷ rs) = insert_newest r (newest_first rs)

abbrev pub all_joined : Ledger → List InvoiceRow → List InternalInvoice
all_joined l [] = []
all_joined l (r ∷ rs) = elim (joined l (some r)) [
  | none ↦ all_joined l rs
  | some i ↦ i ∷ all_joined l rs
]

unfoldable pub list_invoices : ℕ → Ledger → List InternalInvoice
list_invoices limit l = all_joined l (take limit (newest_first l.invoices))
