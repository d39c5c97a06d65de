-- ===== src/Ledger/Tests.antt =====
-- The internal system on one invoice and one payment from outside, and the theorems there.
use qbo_invoice_sync.Common.{◌≡◌, refl, true, false, none, some, [], ◌∷◌}
use qbo_invoice_sync.Common.Int.{pos, ◌+ℤ◌, ◌-ℤ◌}
use qbo_invoice_sync.Errors.{ok, err}
use qbo_invoice_sync.Action.{◌>>=◌}
use qbo_invoice_sync.Invoice.{open_status, partial, sort_lines}
use qbo_invoice_sync.Ledger.{
  InvoiceRow, Ledger, InternalInvoice, Fresh, view_payment, constraint_violation,
}
use qbo_invoice_sync.Ledger.Editing.{PaymentInput, payment_row}
use qbo_invoice_sync.Ledger.Applying.{AppliedPayment, apply_external_payment}
use qbo_invoice_sync.Ledger.Once.{apply_once}
use qbo_invoice_sync.Ledger.{payments_of, sum_payments}
use qbo_invoice_sync.Ledger.Status.{IsDerived}
use qbo_invoice_sync.Ledger.Steps
use qbo_invoice_sync.Ledger.Steps.{LedgerReach, payment_synced, ledger-IsDerived}

abbrev row : InvoiceRow
row = record {
  id = "i1";
  doc_number = "INV-1";
  customer_id = "c1";
  status = open_status;
  currency = "USD";
  notes = none;
  total_cents = pos 1000;
  version = 1;
  created_at = 5;
  updated_at = 5;
}

abbrev ledger : Ledger
ledger = record {
  customers = record { id = "c1"; name = "Acme" } ∷ [];
  invoices = row ∷ [];
  lines = [];
  payments = [];
  doc_number_seq = 1002;
}

abbrev fresh : Fresh
fresh = record { now = 20; db_now = 21; id = "p1"; customer_id = "c2" }

abbrev later : Fresh
later = record { now = 30; db_now = 31; id = "p2"; customer_id = "c3" }

abbrev payment : PaymentInput
payment = record { amount_cents = pos 400; method = some "cash"; received_at = some (some 15) }

abbrev paid_ledger : Ledger
paid_ledger = record ledger {
  invoices = record row { status = partial; version = 2; updated_at = 20 } ∷ [];
  payments = payment_row fresh "i1" payment (some "fake:payment:7:INV-1") ∷ [];
}

abbrev seen : InternalInvoice
seen = record {
  id = "i1";
  doc_number = "INV-1";
  customer_id = "c1";
  customer_name = "Acme";
  status = partial;
  currency = "USD";
  notes = none;
  total_cents = pos 1000;
  balance_cents = pos 600;
  version = 2;
  updated_at = 20;
  lines = [];
  payments = view_payment (payment_row fresh "i1" payment none) ∷ [];
}

abbrev first_time : AppliedPayment
first_time = record { invoice = seen; payment_id = "p1"; created = true }

abbrev second_time : AppliedPayment
second_time = record { invoice = seen; payment_id = "p1"; created = false }

applied_test :
    apply_external_payment fresh "i1" payment "fake:payment:7:INV-1" ledger
    ≡ (ok first_time, paid_ledger)
unfolding apply_external_payment ◌>>=◌ ◌+ℤ◌ ◌-ℤ◌ sort_lines
applied_test = refl

converged_test :
    apply_external_payment later "i1" payment "fake:payment:7:INV-1" paid_ledger
    ≡ (ok second_time, paid_ledger)
unfolding apply_external_payment ◌>>=◌ ◌+ℤ◌ ◌-ℤ◌ sort_lines
converged_test = refl

-- An amount of zero is refused by the table.
zero_test :
    apply_external_payment fresh "i1" (record payment { amount_cents = pos 0 }) "ref" ledger
    ≡ (err constraint_violation, ledger)
unfolding apply_external_payment ◌>>=◌
zero_test = refl

apply_once_example :
    (second_time.created ≡ false)
    × (second_time.payment_id ≡ first_time.payment_id)
    × (paid_ledger.payments ≡ paid_ledger.payments)
apply_once_example =
    apply_once fresh later "i1" "i1" payment payment "fake:payment:7:INV-1" ledger paid_ledger
      paid_ledger first_time second_time applied_test converged_test

ledger_ready : IsDerived ledger
unfolding payments_of sum_payments
ledger_ready = record { ids = (tt, tt); statuses = (λ alive. refl, tt) }

first-applied : LedgerReach (λ n. "n") ledger paid_ledger
first-applied =
    Steps.LedgerReach.next Steps.LedgerReach.start
      (payment_synced fresh "i1" payment "fake:payment:7:INV-1" first_time applied_test)

ledger-IsDerived_example : IsDerived paid_ledger
ledger-IsDerived_example = ledger-IsDerived (λ n. "n") ledger paid_ledger ledger_ready first-applied
