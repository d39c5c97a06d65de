-- ===== src/Controllers/Invoices/Tests.antt =====
-- A payment at one invoice through the interface, and the theorem on announcements there.
use qbo_invoice_sync.Common.{ℕ, Bool, true, ◌≡◌, refl, none, [], ◌∷◌, String}
use qbo_invoice_sync.Common.Int.{pos, ◌+ℤ◌, ◌-ℤ◌}
use qbo_invoice_sync.Action.{traverse, ◌>>=◌}
use qbo_invoice_sync.Money.{cents_to_decimal_string}
use qbo_invoice_sync.Json.{Json, num, obj, end, field}
use qbo_invoice_sync.Invoice.{Date, open_status, sort_lines}
use qbo_invoice_sync.Ledger.{InvoiceRow, Fresh}
use qbo_invoice_sync.Ledger.Editing
use qbo_invoice_sync.Webhooks.{payment}
use qbo_invoice_sync.Controllers.{property}
use qbo_invoice_sync.Controllers.Webhooks.{create, InternalChangeEvent}
use qbo_invoice_sync.Controllers.Invoices
use qbo_invoice_sync.Controllers.Invoices.{Site, in_books, emit, announce}
use qbo_invoice_sync.Controllers.Invoices.Schemas.{parse_payment}
use qbo_invoice_sync.Controllers.Invoices.Announcing.{Announced, paying, handle, change_told}

abbrev row : InvoiceRow
row = record {
  id = "i1";
  doc_number = "INV-1";
  customer_id = "c1";
  status = open_status;
  currency = "USD";
  notes = none;
  total_cents = pos 1000;
  version = 1;
  created_at = 5;
  updated_at = 5;
}

abbrev site : Site
site = record {
  ledger = record {
    customers = record { id = "c1"; name = "Acme" } ∷ [];
    invoices = row ∷ [];
    lines = [];
    payments = [];
    doc_number_seq = 1002;
  };
  emitted = [];
}

abbrev fresh : Fresh
fresh = record { now = 20; db_now = 21; id = "p1"; customer_id = "c2" }

abbrev accept_all : String → Bool
accept_all text = true

abbrev iso : Date → String
iso date = "2026-01-02T00:00:00Z"

abbrev print : ℕ → String
print n = "1"

abbrev body : Json
body = obj (field "amountCents" (num (pos 400)) end)

abbrev posted : InternalChangeEvent
posted = record {
  entity_type = payment;
  entity_id = "p1";
  operation = create;
  version = pos 2;
  occurred_at = "2026-01-02T00:00:00Z";
}

posted_test :
    (handle accept_all accept_all iso print fresh (paying "i1" body) site).1.emitted ≡ posted ∷ []
unfolding handle Invoices.add_payment announce in_books emit parse_payment property
    Editing.add_payment ◌>>=◌ ◌+ℤ◌ ◌-ℤ◌ sort_lines cents_to_decimal_string traverse
posted_test = refl

change_told_example :
    let (reply, u) = handle accept_all accept_all iso print fresh (paying "i1" body) site in
    Announced iso fresh (paying "i1" body) site reply u
change_told_example = change_told accept_all accept_all iso print fresh (paying "i1" body) site
