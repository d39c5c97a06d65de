-- ===== src/QuickBooks/Mapper/RoundTrip.antt =====
-- An invoice that QuickBooks stores as it was sent is read back as it was, so that the snapshot of
-- both agrees.
use qbo_invoice_sync.Common.{ℕ, ◌+◌, ◌≡◌, ◌≢◌, Option, none, some, List, [], ◌∷◌, map, String}
use qbo_invoice_sync.Numbers.{Number, whole}
use qbo_invoice_sync.Invoice.{Date, CanonicalLine}
use qbo_invoice_sync.Items.{get_item_code}
use qbo_invoice_sync.QuickBooks.{QboLine, QboInvoiceJson, QboLineBody, QboInvoiceBody, Qbo}

-- The line and the invoice that QuickBooks keeps of a body: with the name that its customer has, and
-- the total and the balance that it works out itself.
abbrev pub stored_line : QboLineBody → QboLine
stored_line l = record {
  detail_type = some "SalesItemLineDetail";
  amount = some l.amount;
  description = l.description;
  sales_item_line_detail = some (record {
    item_ref = some (record { value = l.item_id; name = none });
    qty = some (whole l.qty);
    unit_price = some l.unit_price;
  });
}

abbrev pub stored_invoice :
    (names : String → Option String) (id sync_token : String)
    → Option String
    → (total balance : Number) → Date
    → QboInvoiceBody
    → QboInvoiceJson
stored_invoice names id sync_token currency total balance updated_at body = record {
  id = id;
  sync_token = sync_token;
  doc_number = some body.doc_number;
  customer_ref = some (record { value = body.customer_id; name = names body.customer_id });
  currency_ref = currency;
  private_note = body.private_note;
  total_amt = some total;
  balance = some balance;
  line = some (map stored_line body.lines);
  last_updated_time = some updated_at;
}

-- The lines are numbered from `n` on.
abbrev pub NumberedFrom : ℕ → List CanonicalLine → Type 0
NumberedFrom n [] = Unit
NumberedFrom n (l ∷ ls) = (l.line_no ≡ n) × NumberedFrom (n + 1) ls

-- The table of items turns the line's item back into its code.
pub record MapsBack {N : Type 0} (w : Qbo N) (l : CanonicalLine) (b : QboLineBody) : Type 0 where
  pub code : get_item_code "quickbooks" b.item_id w.items ≡ some l.item_code
  pub given : b.item_id ≢ ""
