-- ===== src/Ledger/Insertions.antt =====
-- The operations that make invoices: `create`, and `applyCanonical` with or without an invoice to
-- write to.
use qbo_invoice_sync.Common.{
  ℕ, ◌≡◌, ◌≢◌, refl, sym, ap, subst, ◌∙◌, inl, inr, Bool, true, false, not, Option, none, some,
  is_some, List, [], ◌∷◌, ◌++◌, String, str_eq, str_eq_iff, All, All-append, All-map, Bool-cases,
}
use qbo_invoice_sync.Errors.{SyncError, Result, ok}
use qbo_invoice_sync.Action.{guard, >>=-ok}
use qbo_invoice_sync.Invoice.{open_status, CanonicalInvoice}
use qbo_invoice_sync.Ledger.{
  Customer, InvoiceRow, Ledger, InternalInvoice, Fresh, find_invoice, payments_of, sum_payments,
  payment_status,
}
use qbo_invoice_sync.Ledger.Editing.{
  InternalInvoiceInput, create, insert_invoice, next_doc_number, doc_number_for,
}
use qbo_invoice_sync.Ledger.Applying.{
  apply_canonical, write_invoice, ensure_customer, applied_row, customer_or_new, given,
}
use qbo_invoice_sync.Ledger.Status.{StatusOf, StatusBut, IdsDiffer, IsDerived, IsDerivedBut}
use qbo_invoice_sync.Ledger.Once.{settle-ok}
use qbo_invoice_sync.Ledger.Derived.{Same, Same-IsDerived, Same-IsDerivedBut, must_get-Same}
use qbo_invoice_sync.Ledger.Operations.{
  recompute_and_get, guard-eq, or_raise-eq, eq-Same, Same-trans, insert_lines-Same,
  update_invoice-IsDerivedBut,
}

-- An id that is not found is the id of no row.
find_invoice-none :
    (id : String) (rs : List InvoiceRow) → find_invoice id rs ≡ none → All (λ r. r.id ≢ id) rs
unfolding find_invoice
find_invoice-none id [] e = tt
find_invoice-none id (r ∷ rs) e = elim (Bool-cases (str_eq r.id id)) [
  | inl hit ↦ let f = rw hit at e in absurd (cc)
  | inr miss ↦
      (λ q. let k = (str_eq_iff r.id id).1 q in absurd (cc), find_invoice-none id rs (rw miss at e))
]

IdsDiffer-append :
    (rs : List InvoiceRow) (r : InvoiceRow)
    → IdsDiffer rs
    → All (λ s. s.id ≢ r.id) rs
    → IdsDiffer (rs ++ (r ∷ []))
IdsDiffer-append [] r d h = (tt, tt)
IdsDiffer-append (s ∷ rs) r d h =
    (All-append _ rs (r ∷ []) d.0 (h.0, tt), IdsDiffer-append rs r d.1 h.1)

-- The row of a new id stands behind the others, whose payments are as before.
pub record Inserted (row : InvoiceRow) (l m : Ledger) : Type 0 where
  pub new : All (λ s. s.id ≢ row.id) l.invoices
  pub invoices : m.invoices ≡ l.invoices ++ (row ∷ [])
  pub payments : m.payments ≡ l.payments

is_some-false : {A : Type 0} (o : Option A) → not (is_some o) ≡ true → o ≡ none
is_some-false none e = refl
is_some-false (some a) e = cc

guard-true :
    (c : Bool) (x : SyncError) (l m : Ledger) {u : Unit} → guard c x l ≡ (ok u, m) → c ≡ true
guard-true true x l m e = refl
guard-true false x l m e = cc

insert_invoice-Inserted :
    (row : InvoiceRow) (l m : Ledger) {u : Unit}
    → insert_invoice row l ≡ (ok u, m)
    → Inserted row l m
unfolding insert_invoice
insert_invoice-Inserted row l m e =
    let (read, l1, e1, r1) = >>=-ok _ _ l e in
    let (_, l2, e2, r2) = >>=-ok _ _ l1 r1 in
    let (_, l3, e3, r3) = >>=-ok _ _ l2 r2 in
    let (_, l4, e4, r4) = >>=-ok _ _ l3 r3 in
    let same =
      guard-eq _ _ l3 l4 e4
      ∙ guard-eq _ _ l2 l3 e3
      ∙ guard-eq _ _ l1 l2 e2
      ∙ sym (ap (λ x. x.1) e1) in
    let is_read : l ≡ read = read-eq e1 in
    record {
      new = find_invoice-none row.id l.invoices (
          ap (λ x. find_invoice row.id x.invoices) is_read
          ∙ is_some-false (find_invoice row.id read.invoices) (guard-true _ _ l1 l2 e2));
      invoices = sym (ap (λ x. x.1.invoices) r4) ∙ ap (λ x. x.invoices ++ (row ∷ [])) same;
      payments = sym (ap (λ x. x.1.payments) r4) ∙ ap (λ x. x.payments) same;
    }
  where
    read-eq : {a b x y : Ledger} → ◌≡◌ {A = Result Ledger × Ledger} (ok a, x) (ok b, y) → a ≡ b
    read-eq e = cc

Inserted-IsDerivedBut :
    (row : InvoiceRow) (l m : Ledger) → Inserted row l m → IsDerived l → IsDerivedBut row.id m
Inserted-IsDerivedBut row l m i h = record {
  ids = subst IdsDiffer (sym i.invoices) (IdsDiffer-append l.invoices row h.ids i.new);
  statuses =
      subst (λ x. All (StatusBut row.id x) m.invoices) (sym i.payments)
        (subst (All (StatusBut row.id l.payments)) (sym i.invoices) (
          All-append _ l.invoices (row ∷ []) (All-map (λ r s _. s) l.invoices h.statuses)
            (λ ne. absurd (ne refl), tt)));
}

-- A new invoice without payments is open.
Inserted-IsDerived :
    (row : InvoiceRow) (l m : Ledger)
    → Inserted row l m
    → row.status ≡ open_status
    → payments_of row.id l.payments ≡ []
    → IsDerived l
    → IsDerived m
unfolding sum_payments
Inserted-IsDerived row l m i opened unpaid h = record {
  ids = subst IdsDiffer (sym i.invoices) (IdsDiffer-append l.invoices row h.ids i.new);
  statuses =
      subst (λ x. All (StatusOf x) m.invoices) (sym i.payments)
        (subst (All (StatusOf l.payments)) (sym i.invoices) (
          All-append _ l.invoices (row ∷ []) h.statuses (
            λ alive.
                opened ∙ ap (λ x. payment_status row.total_cents (sum_payments x)) (sym unpaid),
            tt,
          )));
}

doc_number-Same :
    (print : ℕ → String) (o : Option String) (l m : Ledger) {x : String}
    → doc_number_for print o l ≡ (ok x, m)
    → Same l m
unfolding next_doc_number
doc_number-Same print none l m e = (sym (ap (λ p. p.1.invoices) e), sym (ap (λ p. p.1.payments) e))
doc_number-Same print (some doc) l m e = eq-Same (sym (ap (λ p. p.1) e))

-- `create`, with an id that no payment refers to.
pub create-IsDerived :
    (print : ℕ → String) (t : Fresh) (input : InternalInvoiceInput) (l m : Ledger)
    {a : InternalInvoice}
    → IsDerived l
    → payments_of t.id l.payments ≡ []
    → create print t input l ≡ (ok a, m)
    → IsDerived m
unfolding create
create-IsDerived print t input l m h unpaid e =
    let (doc, l1, e1, r1) = >>=-ok _ _ l (settle-ok l _ e) in
    let (_, l2, e2, r2) = >>=-ok _ _ l1 r1 in
    let (_, l3, e3, r3) = >>=-ok _ _ l2 r2 in
    let named = doc_number-Same print input.doc_number l l1 e1 in
    Same-IsDerived l3 m (must_get-Same t.id l3 m r3) (
      Same-IsDerived l2 l3 (insert_lines-Same t.id _ l2 l3 e3) (
        Inserted-IsDerived _ l1 l2 (insert_invoice-Inserted _ l1 l2 e2) refl
          (ap (payments_of t.id) named.1 ∙ unpaid) (Same-IsDerived l l1 named h)))

customer-Same :
    (t : Fresh) (name : String) (o : Option Customer) (l m : Ledger) {x : String}
    → customer_or_new t name o l ≡ (ok x, m)
    → Same l m
customer-Same t name (some c) l m e = eq-Same (sym (ap (λ p. p.1) e))
customer-Same t name none l m e =
    let (_, l1, e1, r1) = >>=-ok _ _ l e in
    Same-trans l l1 m (sym (ap (λ p. p.1.invoices) e1), sym (ap (λ p. p.1.payments) e1))
      (eq-Same (sym (ap (λ p. p.1) r1)))

ensure_customer-Same :
    (t : Fresh) (name : String) (l m : Ledger) {x : String}
    → ensure_customer t name l ≡ (ok x, m)
    → Same l m
unfolding ensure_customer
ensure_customer-Same t name l m e =
    let (o, l1, e1, r1) = >>=-ok _ _ l e in
    Same-trans l l1 m (eq-Same (sym (ap (λ p. p.1) e1))) (customer-Same t name o l1 m r1)

text-eq :
    {a b : String} {x y : Ledger} → ◌≡◌ {A = Result String × Ledger} (ok a, x) (ok b, y) → a ≡ b
text-eq e = cc

write_invoice-IsDerivedBut :
    (t : Fresh) (customer_id : String) (invoice : CanonicalInvoice) (o : Option String)
    (l m : Ledger) {id : String}
    → IsDerived l
    → write_invoice t customer_id invoice o l ≡ (ok id, m)
    → IsDerivedBut id m
write_invoice-IsDerivedBut t customer_id invoice (some id) l m h e =
    let (_, l1, e1, r1) = >>=-ok _ _ l e in
    let (_, l2, e2, r2) = >>=-ok _ _ l1 r1 in
    let (_, l3, e3, r3) = >>=-ok _ _ l2 r2 in
    let (_, l4, e4, r4) = >>=-ok _ _ l3 r3 in
    let (_, l5, e5, r5) = >>=-ok _ _ l4 r4 in
    let before = or_raise-eq _ _ l1 l2 e2 ∙ sym (ap (λ x. x.1) e1) in
    let dropped : Same l2 l3 = (sym (ap (λ p. p.1.invoices) e3), sym (ap (λ p. p.1.payments) e3)) in
    let kept =
      Same-IsDerived l3 l4 (insert_lines-Same id _ l3 l4 e4)
        (Same-IsDerived l2 l3 dropped (subst IsDerived (sym before) h)) in
    subst (λ n. IsDerivedBut n m) (text-eq r5)
      (subst (IsDerivedBut id) (ap (λ p. p.1) r5) (
        update_invoice-IsDerivedBut id (applied_row t customer_id invoice) l4 l5 (λ r. refl) kept
          e5))
write_invoice-IsDerivedBut t customer_id invoice none l m h e =
    let (_, l1, e1, r1) = >>=-ok _ _ l e in
    let (_, l2, e2, r2) = >>=-ok _ _ l1 r1 in
    subst (λ n. IsDerivedBut n m) (text-eq r2)
      (subst (IsDerivedBut t.id) (ap (λ p. p.1) r2) (
        Same-IsDerivedBut t.id l1 l2 (insert_lines-Same t.id _ l1 l2 e2)
          (Inserted-IsDerivedBut _ l l1 (insert_invoice-Inserted _ l l1 e1) h)))

pub apply_canonical-IsDerived :
    (t : Fresh) (invoice : CanonicalInvoice) (existing_id : Option String) (l m : Ledger)
    {a : InternalInvoice}
    → IsDerived l
    → apply_canonical t invoice existing_id l ≡ (ok a, m)
    → IsDerived m
unfolding apply_canonical
apply_canonical-IsDerived t invoice existing_id l m h e =
    let (customer_id, l1, e1, r1) = >>=-ok _ _ l (settle-ok l _ e) in
    let (id, l2, e2, r2) = >>=-ok _ _ l1 r1 in
    let (_, l3, e3, r3) = >>=-ok _ _ l2 r2 in
    recompute_and_get id l2 l3 m
      (write_invoice-IsDerivedBut t customer_id invoice (given existing_id) l1 l2
        (Same-IsDerived l l1 (ensure_customer-Same t invoice.customer_name l l1 e1) h) e2)
      e3 r3
