-- ===== src/Invoice/Tests.antt =====
-- Snapshots of an invoice whose lines arrive in two orders, and the theorems there.
use mathlib.Core.List.{Perm}
use mathlib.Core.List.Perm
use qbo_invoice_sync.Common.{ℕ, ◌≡◌, ◌↔◌, refl, none, some, List, [], ◌∷◌, codes, arith}
use qbo_invoice_sync.Common.Int.{pos}
use qbo_invoice_sync.Json.{stable_stringify, escape_all, escape}
use qbo_invoice_sync.Decimal.{to_digits}
use qbo_invoice_sync.Invoice.{
  open_status, paid, CanonicalLine, CanonicalInvoice, sort_lines, to_comparable, comparable_text,
  snapshot_hash,
}
use qbo_invoice_sync.Invoice.Sorting.{Distinct}
use qbo_invoice_sync.Invoice.Snapshots.{comparable_text_inj}
use qbo_invoice_sync.Invoice.Content.{SameContent, snapshot_hash-eq_iff}

abbrev first_line : CanonicalLine
first_line = record {
  line_no = 1;
  item_code = "A";
  description = none;
  quantity = pos 2;
  unit_price_cents = pos 500;
  amount_cents = pos 1000;
}

abbrev second_line : CanonicalLine
second_line = record first_line { line_no = 2; item_code = "B" }

abbrev invoice : CanonicalInvoice
invoice = record {
  doc_number = "INV-1";
  customer_name = "Acme";
  status = open_status;
  currency = "USD";
  notes = none;
  lines = second_line ∷ first_line ∷ [];
  total_cents = pos 2000;
  balance_cents = pos 2000;
  source_updated_at = some 10;
}

-- The invoice once it is paid, as the other system lists it.
abbrev paid_invoice : CanonicalInvoice
paid_invoice = record invoice {
  status = paid;
  balance_cents = pos 0;
  lines = first_line ∷ second_line ∷ [];
}

text_test :
    comparable_text (to_comparable (record invoice { lines = first_line ∷ [] }))
    ≡ codes
        "{\"currency\":\"USD\",\"customerName\":\"Acme\",\"docNumber\":\"INV-1\",\"lifecycle\":\"active\",\"lines\":[{\"amountCents\":1000,\"description\":null,\"itemCode\":\"A\",\"lineNo\":1,\"quantity\":2,\"unitPriceCents\":500}],\"notes\":null,\"totalCents\":2000}"
unfolding comparable_text stable_stringify escape_all escape to_digits to_comparable sort_lines
text_test = refl

-- The digest that is the text itself has no collision.
abbrev plain_digest : List ℕ → List ℕ
plain_digest s = s

lines-perm : Perm (second_line ∷ first_line ∷ []) (first_line ∷ second_line ∷ [])
lines-perm = Perm.swap first_line second_line []

invoice-Distinct : Distinct invoice.lines
invoice-Distinct = (((λ e. omega (arith, e)), tt), (tt, tt))

snapshot_hash-eq_iff_example :
    (snapshot_hash plain_digest (to_comparable invoice)
      ≡ snapshot_hash plain_digest (to_comparable paid_invoice))
    ↔ SameContent invoice paid_invoice
snapshot_hash-eq_iff_example =
    snapshot_hash-eq_iff plain_digest invoice paid_invoice (λ e. e) invoice-Distinct

comparable_text_inj_example : to_comparable invoice ≡ to_comparable paid_invoice
unfolding to_comparable sort_lines
comparable_text_inj_example =
    comparable_text_inj (to_comparable invoice) (to_comparable paid_invoice) refl
