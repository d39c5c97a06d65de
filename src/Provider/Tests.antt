-- ===== src/Provider/Tests.antt =====
-- The in-memory provider on one invoice, and the theorems there.
use qbo_invoice_sync.Common.{
  ℕ, zero, suc, ◌≡◌, refl, sym, ap, ◌∙◌, inr, none, some, [], ◌∷◌, String, codes, length,
}
use qbo_invoice_sync.Common.Int.{pos}
use qbo_invoice_sync.Errors.{ok, err}
use qbo_invoice_sync.Action.{◌>>=◌}
use qbo_invoice_sync.Invoice.{open_status, CanonicalInvoice}
use qbo_invoice_sync.Provider.Fake.{
  StoredInvoice, FakeState, timeout_after_write, injected, stale, update_invoice, create_invoice,
  find_invoice_by_doc_number, find_stored, find_numbered,
}
use qbo_invoice_sync.Provider.Locking.{IsInjective, update_once}
use qbo_invoice_sync.Provider.Recovery.{create_recovers}

-- Numbers as rows of strokes, which are printed apart.
abbrev strokes : ℕ → String
strokes zero = String.[]
strokes (suc n) = String.◌∷◌ "|" (strokes n)

length-strokes : (n : ℕ) → length (codes (strokes n)) ≡ n
length-strokes zero = refl
length-strokes (suc n) = ap suc (length-strokes n)

strokes-IsInjective : IsInjective strokes
strokes-IsInjective m n e = sym (length-strokes m) ∙ ap (λ s. length (codes s)) e ∙ length-strokes n

abbrev invoice : CanonicalInvoice
invoice = record {
  doc_number = "INV-1";
  customer_name = "Acme";
  status = open_status;
  currency = "USD";
  notes = none;
  lines = [];
  total_cents = pos 1000;
  balance_cents = pos 1000;
  source_updated_at = some 10;
}

abbrev edited : CanonicalInvoice
edited = record invoice { notes = some "edited" }

abbrev empty : FakeState
empty = record {
  invoices = [];
  payments = [];
  failures = timeout_after_write ∷ [];
  reallocations = [];
  calls = [];
  draws = 0;
}

abbrev stored : FakeState
stored = record empty {
  invoices = record { external_id = "7"; sync_token = 0; invoice = invoice } ∷ [];
}

abbrev after_update : FakeState
after_update = record stored {
  invoices = record { external_id = "7"; sync_token = 1; invoice = edited } ∷ [];
  failures = [];
  calls = "updateInvoice:7" ∷ [];
}

abbrev after_create : FakeState
after_create = record empty {
  invoices = record { external_id = ""; sync_token = 0; invoice = invoice } ∷ [];
  failures = [];
  calls = "createInvoice:INV-1" ∷ [];
  draws = 1;
}

-- The write is made, its answer is lost.
update_test :
    update_invoice strokes strokes "7" "" edited stored
    ≡ (err (injected timeout_after_write), after_update)
unfolding update_invoice ◌>>=◌
update_test = refl

create_test :
    create_invoice strokes strokes invoice empty
    ≡ (err (injected timeout_after_write), after_create)
unfolding create_invoice ◌>>=◌
create_test = refl

update_once_example :
    ((x : StoredInvoice) × (find_stored "7" after_update.invoices ≡ some x) × (x.invoice ≡ edited))
    × ((update_invoice strokes strokes "7" "" invoice after_update).0 ≡ err stale)
update_once_example =
    update_once strokes strokes "7" "" edited invoice stored after_update
      (err (injected timeout_after_write)) strokes-IsInjective update_test (inr refl)

unknown : find_numbered "INV-1" empty.invoices ≡ none
unfolding find_numbered
unknown = refl

create_recovers_example :
    (find_invoice_by_doc_number strokes strokes "INV-1" after_create).0
    ≡ ok (some (record { external_id = ""; sync_token = ""; invoice = some invoice }))
create_recovers_example =
    create_recovers strokes strokes invoice empty after_create (err (injected timeout_after_write))
      unknown refl create_test (inr refl)
