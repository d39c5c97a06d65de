-- ===== src/Ledger/Applying.antt =====
-- The operations of the internal system that the synchronisation calls: `toCanonical`,
-- `applyCanonical` and `applyExternalPayment` of
-- src/models/repositories/internalInvoiceRepository.ts.
use qbo_invoice_sync.Common.{
  ◌+◌, Bool, true, false, ◌&&◌, Option, none, some, is_some, List, [], ◌∷◌, ◌++◌, map, String,
  str_eq, if◌then◌else◌,
}
use qbo_invoice_sync.Common.Int.{pos, ltb_ℤ}
use qbo_invoice_sync.Action.{Action, pure, gets, modify, guard, or_raise, ◌>>=◌, ◌>>◌}
use qbo_invoice_sync.Invoice.{InvoiceStatus, open_status, CanonicalInvoice, copy_line}
use qbo_invoice_sync.Ledger.{
  Customer, InvoiceRow, PaymentRow, Ledger, InternalInvoice, Fresh, transaction, no_result,
  constraint_violation, is_dead, find_invoice, update_invoice, must_get, recompute_payment_status,
}
use qbo_invoice_sync.Ledger.Editing.{
  PaymentInput, insert_lines, delete_lines, insert_invoice, bump_version, payment_row,
  payment_allowed,
}

-- `updatedAt.toISOString()` is kept as the date.
abbrev pub to_canonical : InternalInvoice → CanonicalInvoice
to_canonical invoice = record {
  doc_number = invoice.doc_number;
  customer_name = invoice.customer_name;
  status = invoice.status;
  currency = invoice.currency;
  notes = invoice.notes;
  lines = map copy_line invoice.lines;
  total_cents = invoice.total_cents;
  balance_cents = invoice.balance_cents;
  source_updated_at = some invoice.updated_at;
}

unfoldable pub find_customer_named : String → List Customer → Option Customer
find_customer_named name [] = none
find_customer_named name (c ∷ cs) =
    if str_eq c.name name then some c else find_customer_named name cs

abbrev pub customer_or_new : Fresh → String → Option Customer → Action Ledger String
customer_or_new t name (some c) = pure c.id
customer_or_new t name none = do
  modify (λ l. record l {
    customers = l.customers ++ (record { id = t.customer_id; name = name } ∷ []);
  })
  pure t.customer_id

unfoldable pub ensure_customer : Fresh → String → Action Ledger String
unfolding find_customer_named
ensure_customer t name = do
  existing ← gets (λ l. find_customer_named name l.customers)
  customer_or_new t name existing

-- A dead status is taken over; any other becomes open, and is derived again from the payments.
abbrev pub applied_status : InvoiceStatus → InvoiceStatus
applied_status status = if is_dead status then status else open_status

-- The number of the invoice is not among the columns that are set.
abbrev pub applied_row : Fresh → String → CanonicalInvoice → InvoiceRow → InvoiceRow
applied_row t customer_id invoice r = record r {
  customer_id = customer_id;
  currency = invoice.currency;
  notes = invoice.notes;
  total_cents = invoice.total_cents;
  status = applied_status invoice.status;
  version = r.version + 1;
  updated_at = t.now;
}

abbrev pub created_row : Fresh → String → CanonicalInvoice → InvoiceRow
created_row t customer_id invoice = record {
  id = t.id;
  doc_number = invoice.doc_number;
  customer_id = customer_id;
  status = applied_status invoice.status;
  currency = invoice.currency;
  notes = invoice.notes;
  total_cents = invoice.total_cents;
  version = 1;
  created_at = t.db_now;
  updated_at = t.db_now;
}

-- `if (id)`, which an empty text fails too
abbrev pub given : Option String → Option String
given none = none
given (some id) = if str_eq id "" then none else some id

-- The invoice that the state is written to.
abbrev pub write_invoice : Fresh → String → CanonicalInvoice → Option String → Action Ledger String
write_invoice t customer_id invoice (some id) = do
  found ← gets (λ l. find_invoice id l.invoices)
  current ← or_raise no_result found
  delete_lines id
  insert_lines id (map copy_line invoice.lines)
  update_invoice id (applied_row t customer_id invoice)
  pure id
write_invoice t customer_id invoice none = do
  insert_invoice (created_row t customer_id invoice)
  insert_lines t.id (map copy_line invoice.lines)
  pure t.id

unfoldable pub apply_canonical :
    Fresh → CanonicalInvoice → Option String → Action Ledger InternalInvoice
unfolding ensure_customer find_invoice insert_lines insert_invoice recompute_payment_status must_get
apply_canonical t invoice existing_id = transaction do
  customer_id ← ensure_customer t invoice.customer_name
  id ← write_invoice t customer_id invoice (given existing_id)
  recompute_payment_status id
  must_get id

-- A null reference is equal to none.
abbrev pub has_ref : String → PaymentRow → Bool
has_ref ref p = elim p.external_ref [ none ↦ false | some r ↦ str_eq r ref ]

unfoldable pub find_by_ref : String → List PaymentRow → Option PaymentRow
find_by_ref ref [] = none
find_by_ref ref (p ∷ ps) = if has_ref ref p then some p else find_by_ref ref ps

pub record AppliedPayment : Type 0 where
  pub invoice : InternalInvoice
  pub payment_id : String
  pub created : Bool

-- Behind `ON CONFLICT (external_ref) DO NOTHING`, by the payment that already has the reference.
abbrev pub apply_or_converge :
    Fresh → String → PaymentInput → String → Option PaymentRow → Action Ledger AppliedPayment
apply_or_converge t invoice_id payment ref none = do
  modify (λ l. record l {
    payments = l.payments ++ (payment_row t invoice_id payment (some ref) ∷ []);
  })
  bump_version t invoice_id
  recompute_payment_status invoice_id
  invoice ← must_get invoice_id
  pure (record { invoice = invoice; payment_id = t.id; created = true })
apply_or_converge t invoice_id payment ref (some existing) = do
  recompute_payment_status existing.invoice_id
  invoice ← must_get existing.invoice_id
  pure (record { invoice = invoice; payment_id = existing.id; created = false })

-- What the insertion checks: the amount and the date of the row in any case, the reference to the
-- invoice only of a row that is inserted.
abbrev pub insert_allowed : PaymentRow → Option PaymentRow → Ledger → Bool
insert_allowed p none l = payment_allowed p l
insert_allowed p (some existing) l = ltb_ℤ (pos 0) p.amount_cents && is_some p.received_at

unfoldable pub apply_external_payment :
    Fresh → String → PaymentInput → String → Action Ledger AppliedPayment
unfolding find_by_ref recompute_payment_status must_get find_invoice
apply_external_payment t invoice_id payment ref = transaction do
  existing ← gets (λ l. find_by_ref ref l.payments)
  allowed ← gets (insert_allowed (payment_row t invoice_id payment (some ref)) existing)
  guard allowed constraint_violation
  apply_or_converge t invoice_id payment ref existing
