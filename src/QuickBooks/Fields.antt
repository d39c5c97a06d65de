-- ===== src/QuickBooks/Fields.antt =====
-- What src/providers/quickbooks/qboMapper.ts reads of a record by itself, without a request.
use qbo_invoice_sync.Common.{
  ℕ, ◌+◌, ◌-◌, ◌%◌, Bool, false, ◌&&◌, Option, none, some, or_else, List, [], ◌∷◌, codes, String,
  str_eq, if◌then◌else◌,
}
use qbo_invoice_sync.Common.Int.{ℤ, pos, ltb_ℤ, leb_ℤ, eqb_ℤ}
use qbo_invoice_sync.Errors.{SyncError, plain_error, permanent_provider_error, Result, ok, err}
use qbo_invoice_sync.Money.{cents_to_decimal_string}
use qbo_invoice_sync.Numbers.{Number, whole, number, number_to_cents}
use qbo_invoice_sync.Texts.{includes_text}
use qbo_invoice_sync.Invoice.{Date, InvoiceStatus, open_status, partial, paid}
use qbo_invoice_sync.QuickBooks.{QboRef, QboLineDetail, QboLine, LinkedTxn, QboPaymentLine}

-- A property is read of `undefined`.
abbrev pub type_error : SyncError
type_error = record { kind = plain_error; message = "Cannot read properties of undefined" }

abbrev pub no_item_mapping : SyncError
no_item_mapping = record { kind = permanent_provider_error; message = "no QBO item mapping" }

-- A text that is not empty, as a condition takes it.
abbrev pub truthy : Option String → Option String
truthy none = none
truthy (some s) = if str_eq s "" then none else some s

-- `list?.[0]`
abbrev pub first_of : {A : Type 0} → Option (List A) → Option A
first_of none = none
first_of (some []) = none
first_of (some (a ∷ more)) = some a

abbrev pub as_number : Result (List ℕ) → Result Number
as_number (ok s) = ok (number s)
as_number (err e) = err e

-- `Number(centsToDecimalString(cents))`
unfoldable pub amount_number : ℤ → Result Number
amount_number cents = as_number (cents_to_decimal_string cents)

-- `decimalStringToCents(amount ?? 0)`
unfoldable pub cents_of_amount : Option Number → Result ℤ
cents_of_amount amount = number_to_cents (or_else amount (whole (pos 0)))

abbrev pub is_sales_line : QboLine → Bool
is_sales_line l = elim l.detail_type [ none ↦ false | some t ↦ str_eq t "SalesItemLineDetail" ]

unfoldable pub sales_lines : List QboLine → List QboLine
sales_lines [] = []
sales_lines (l ∷ ls) = if is_sales_line l then l ∷ sales_lines ls else sales_lines ls

abbrev pub no_detail : QboLineDetail
no_detail = record { item_ref = none; qty = none; unit_price = none }

abbrev pub ref_value : Option QboRef → Option String
ref_value none = none
ref_value (some r) = some r.value

abbrev pub ref_name : Option QboRef → Option String
ref_name none = none
ref_name (some r) = r.name

-- Voiding zeroes the amounts and stamps the note.
unfoldable pub is_voided : ℤ → Option String → Bool
is_voided total note =
    eqb_ℤ total (pos 0) && includes_text (codes "Voided") (codes (or_else note ""))

unfoldable pub status_of : Bool → ℤ → ℤ → InvoiceStatus
status_of voided total balance =
    if voided
    then InvoiceStatus.voided
    else if leb_ℤ balance (pos 0) && ltb_ℤ (pos 0) total
    then paid
    else if ltb_ℤ balance total
    then partial
    else open_status

-- `t.TxnType === "Invoice" && t.TxnId`
abbrev pub invoice_txn : LinkedTxn → Option String
invoice_txn t = elim t.txn_type [
  | none ↦ none
  | some type ↦ if str_eq type "Invoice" then truthy t.txn_id else none
]

unfoldable pub linked_invoice : List LinkedTxn → Option String
linked_invoice [] = none
linked_invoice (t ∷ ts) = elim (invoice_txn t) [ none ↦ linked_invoice ts | some id ↦ some id ]

-- The invoice that a line of a payment is applied to, and the amount.
abbrev pub line_allocation : QboPaymentLine → Option (String × Option Number)
line_allocation l = elim (linked_invoice (or_else l.linked_txn [])) [
  | none ↦ none
  | some id ↦ some (id, l.amount)
]

unfoldable pub line_allocations : List QboPaymentLine → List (String × Option Number)
unfolding linked_invoice
line_allocations [] = []
line_allocations (l ∷ ls) = elim (line_allocation l) [
  | none ↦ line_allocations ls
  | some a ↦ a ∷ line_allocations ls
]

-- `receivedAt.slice(0, 10)`, as the day that it denotes
abbrev pub day_of : Date → Date
day_of none = none
day_of (some ms) = some (ms - ms % 86400000)

-- The lines with their numbers, from `n` on.
abbrev pub numbered : ℕ → List QboLine → List (ℕ × QboLine)
numbered n [] = []
numbered n (l ∷ ls) = (n, l) ∷ numbered (n + 1) ls
