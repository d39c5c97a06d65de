-- ===== src/QuickBooks/Mapper/Sending.antt =====
-- What src/providers/quickbooks/qboMapper.ts sends of an invoice.
use qbo_invoice_sync.Common.{
  ◌≡◌, refl, sym, ap, subst, ◌∙◌, false, inl, inr, Bool-cases, Option, none, some, List, [], ◌∷◌,
  String, arith, Pairwise, both_empty, pair, codes,
}
use qbo_invoice_sync.Common.Int.{ℤ, ◌+ℤ◌}
use qbo_invoice_sync.Errors.{ok, err}
use qbo_invoice_sync.Ledger.Editing.{total_of}
use qbo_invoice_sync.Action.{or_raise, or_raise-ok, lift, pure-ok, traverse, traverse-ok, >>=-ok}
use qbo_invoice_sync.Money.{is_safe_integer, not_cents, cents_to_decimal_string}
use qbo_invoice_sync.Numbers.{Number, number, number_to_cents}
use qbo_invoice_sync.Numbers.Printed.{number_round_trip}
use qbo_invoice_sync.Invoice.{CanonicalLine, CanonicalInvoice}
use qbo_invoice_sync.QuickBooks.{
  QboConfig, QboLineBody, QboInvoiceBody, Outside, Qbo, QueryResponse, QboCustomerJson, Reply,
  customer_body,
}
use qbo_invoice_sync.QuickBooks.Client.{query, post}
use qbo_invoice_sync.QuickBooks.Fields.{type_error, first_of, amount_number, cents_of_amount}
use qbo_invoice_sync.QuickBooks.Mapper.{
  to_qbo_line, to_qbo_invoice_body, resolve_item_ref, ensure_customer, customer_query,
  created_customer,
}

-- What QuickBooks documents of the customer that it finds or creates for a name: it has that name.
pub record HasCustomer {N : Type 0} (config : QboConfig) (out : Outside N)
    (names : String → Option String) (name : String) : Type 0 where
  pub found :
      (w v : Qbo N) (r : QueryResponse) (c : QboCustomerJson)
      → query config out (customer_query config out name) w ≡ (ok r, v)
      → first_of r.customers ≡ some c
      → names c.id ≡ some name
  pub created :
      (w v : Qbo N) (r : Reply) (c : QboCustomerJson)
      → post config out (codes "/customer") (customer_body name) w ≡ (ok r, v)
      → r.customer ≡ some c
      → names c.id ≡ some name

-- The sum of the amounts that were sent, which is the total that QuickBooks works out.
pub data IsTotal : ℤ → List QboLineBody → ℤ → Type 0 where
  summed : {z : ℤ} → IsTotal z [] z
  plus :
      {z total : ℤ} {b : QboLineBody} {bs : List QboLineBody} (cents : ℤ)
      → cents_of_amount (some b.amount) ≡ ok cents
      → IsTotal (z +ℤ cents) bs total
      → IsTotal z (b ∷ bs) total

-- How the body's line says what the invoice's does.
pub record SentLine (l : CanonicalLine) (b : QboLineBody) : Type 0 where
  pub description : b.description ≡ l.description
  pub quantity : b.qty ≡ l.quantity
  pub amount : amount_number l.amount_cents ≡ ok b.amount
  pub unit_price : amount_number l.unit_price_cents ≡ ok b.unit_price

unsafe-cents : (z : ℤ) → is_safe_integer z ≡ false → cents_to_decimal_string z ≡ err not_cents
unfolding cents_to_decimal_string
unsafe-cents z h = rw h

-- An amount that was sent is read as the same.
pub amount_number-cents :
    (z : ℤ) (n : Number) → amount_number z ≡ ok n → cents_of_amount (some n) ≡ ok z
unfolding amount_number cents_of_amount
amount_number-cents z n e = elim (Bool-cases (is_safe_integer z)) [
  | inl safe ↦
      let (s, prints, reads) = number_round_trip z (ground arith) in
      let printed = rw prints at e in
      let same : number s ≡ n = cc in ap number_to_cents (sym same) ∙ reads
  | inr unsafe ↦ let fails = unsafe-cents z unsafe in cc
]

pub total_of-sent :
    (z total : ℤ) (ls : List CanonicalLine) (bs : List QboLineBody)
    → Pairwise SentLine ls bs
    → IsTotal z bs total
    → total ≡ total_of z ls
unfolding total_of
total_of-sent z total [] [] both_empty summed = refl
total_of-sent z total [] (b ∷ bs) x6 _ = elim x6 [ ]
total_of-sent z total (l ∷ ls) [] x6 _ = elim x6 [ ]
total_of-sent z total (l ∷ ls) (b ∷ bs) (pair s ss) (plus cents e t) =
    let read = amount_number-cents l.amount_cents b.amount s.amount in
    let same : cents ≡ l.amount_cents = (let both = sym e ∙ read in cc) in
    total_of-sent (z +ℤ l.amount_cents) total ls bs ss
      (subst (λ c. IsTotal (z +ℤ c) bs total) same t)

-- What is kept of an invoice in its body.
pub record SentInvoice (names : String → Option String) (invoice : CanonicalInvoice)
    (body : QboInvoiceBody) : Type 0 where
  pub customer : names body.customer_id ≡ some invoice.customer_name
  pub doc_number : body.doc_number ≡ invoice.doc_number
  pub note : body.private_note ≡ invoice.notes
  pub lines : Pairwise SentLine invoice.lines body.lines

module _ {N : Type 0} (config : QboConfig) (out : Outside N) where
  to_qbo_line-SentLine :
      (l : CanonicalLine) (s t : Qbo N) (b : QboLineBody)
      → to_qbo_line config out l s ≡ (ok b, t)
      → SentLine l b
  to_qbo_line-SentLine l s t b e =
      let (id, u, p, q) = >>=-ok (resolve_item_ref config out l.item_code) _ s e in
      let (amount, u1, p1, q1) = >>=-ok (lift (amount_number l.amount_cents)) _ u q in
      let (unit_price, u2, p2, q2) = >>=-ok (lift (amount_number l.unit_price_cents)) _ u1 q1 in
      let (same, end) = pure-ok _ u2 q2 in
      record {
        description = ap (λ x. x.description) (sym same);
        quantity = ap (λ x. x.qty) (sym same);
        amount = ap (λ x. x.0) p1 ∙ ap (λ x. ok x.amount) same;
        unit_price = ap (λ x. x.0) p2 ∙ ap (λ x. ok x.unit_price) same;
      }

  -- The customer that is sent has the name of the invoice's.
  created_customer-name :
      (names : String → Option String) (name : String) (o : Option QboCustomerJson) (w v : Qbo N)
      (id : String)
      → HasCustomer config out names name
      → ((c : QboCustomerJson) → o ≡ some c → names c.id ≡ some name)
      → created_customer config out name o w ≡ (ok id, v)
      → names id ≡ some name
  created_customer-name names name (some c) w v id k found e =
      let (same, end) = pure-ok c.id w e in subst (λ x. names x ≡ some name) same (found c refl)
  created_customer-name names name none w v id k found e =
      let (r, u, p, q) = >>=-ok (post config out (codes "/customer") (customer_body name)) _ w e in
      let (c, u1, p1, q1) = >>=-ok (or_raise type_error r.customer) _ u q in
      let (there, start) = or_raise-ok type_error r.customer u p1 in
      let (same, end) = pure-ok c.id u1 q1 in
      subst (λ x. names x ≡ some name) same (k.created w u r c p there)

  ensure_customer-name :
      (names : String → Option String) (name : String) (w v : Qbo N) (id : String)
      → HasCustomer config out names name
      → ensure_customer config out name w ≡ (ok id, v)
      → names id ≡ some name
  unfolding ensure_customer
  ensure_customer-name names name w v id k e =
      let (r, u, p, q) = >>=-ok (query config out (customer_query config out name)) _ w e in
      created_customer-name names name (first_of r.customers) u v id k (λ c. k.found w u r c p) q

  pub to_qbo_invoice_body-SentInvoice :
      (names : String → Option String) (invoice : CanonicalInvoice)
      (existing : Option (String × String)) (w v : Qbo N) (body : QboInvoiceBody)
      → HasCustomer config out names invoice.customer_name
      → to_qbo_invoice_body config out invoice existing w ≡ (ok body, v)
      → SentInvoice names invoice body
  unfolding to_qbo_invoice_body
  to_qbo_invoice_body-SentInvoice names invoice existing w v body k e =
      let (customer_id, u, p, q) =
        >>=-ok (ensure_customer config out invoice.customer_name) _ w e in
      let (lines, u1, p1, q1) = >>=-ok (traverse (to_qbo_line config out) invoice.lines) _ u q in
      let (same, end) = pure-ok _ u1 q1 in
      record {
        customer =
            subst (λ x. names x.customer_id ≡ some invoice.customer_name) same
              (ensure_customer-name names invoice.customer_name w u customer_id k p);
        doc_number = ap (λ x. x.doc_number) (sym same);
        note = ap (λ x. x.private_note) (sym same);
        lines =
            subst (λ x. Pairwise SentLine invoice.lines x.lines) same
              (traverse-ok SentLine (to_qbo_line config out) to_qbo_line-SentLine invoice.lines u u1
                lines p1);
      }
