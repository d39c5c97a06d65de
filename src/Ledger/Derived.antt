-- ===== src/Ledger/Derived.antt =====
-- Every operation of the internal system keeps the statuses derived from the payments.
use qbo_invoice_sync.Common.{
  ◌≡◌, ◌≢◌, refl, sym, ap, subst, ◌∙◌, inl, inr, Option, none, some, List, [], ◌∷◌, ◌++◌, String,
  str_eq, str_eq_iff, All, All-map, Bool-cases,
}
use qbo_invoice_sync.Errors.{Result, ok, err}
use qbo_invoice_sync.Action.{or_raise, >>=-ok}
use qbo_invoice_sync.Ledger.{
  PaymentRow, InvoiceRow, Ledger, InternalInvoice, settle, update_invoices, payments_of,
  sum_payments, payment_status, fetch_full, must_get, by_id, not_found,
}
use qbo_invoice_sync.Ledger.Status.{
  StatusOf, StatusBut, IdsDiffer, IsDerived, IsDerivedBut, update_invoices-All,
  update_invoices-IdsDiffer,
}

-- What decides the statuses: the invoices and the payments.
abbrev pub Same : Ledger → Ledger → Type 0
Same l m = (m.invoices ≡ l.invoices) × (m.payments ≡ l.payments)

pub Same-IsDerived : (l m : Ledger) → Same l m → IsDerived l → IsDerived m
Same-IsDerived l m s h = record {
  ids = subst IdsDiffer (sym s.0) h.ids;
  statuses =
      subst (λ x. All (StatusOf x) m.invoices) (sym s.1)
        (subst (All (StatusOf l.payments)) (sym s.0) h.statuses);
}

pub Same-IsDerivedBut :
    (id : String) (l m : Ledger) → Same l m → IsDerivedBut id l → IsDerivedBut id m
Same-IsDerivedBut id l m s h = record {
  ids = subst IdsDiffer (sym s.0) h.ids;
  statuses =
      subst (λ x. All (StatusBut id x) m.invoices) (sym s.1)
        (subst (All (StatusBut id l.payments)) (sym s.0) h.statuses);
}

pub but : (id : String) (l : Ledger) → IsDerived l → IsDerivedBut id l
but id l h = record { ids = h.ids; statuses = All-map (λ r s _. s) l.invoices h.statuses }

-- Reading changes nothing.
pub must_get-Same :
    (id : String) (l m : Ledger) {i : InternalInvoice} → must_get id l ≡ (ok i, m) → Same l m
unfolding must_get fetch_full
must_get-Same id l m e =
    let (o, t, read, raised) = >>=-ok _ _ l e in
    let step = sym (ap (λ p. p.1) raised) ∙ raise_same o t ∙ sym (ap (λ p. p.1) read) ∙ same l in
    (ap (λ x. x.invoices) step, ap (λ x. x.payments) step)
  where
    raise_same : (o : Option InternalInvoice) (t : Ledger) → (or_raise not_found o t).1 ≡ t
    raise_same none t = refl
    raise_same (some i) t = refl

    same : (l : Ledger) → (fetch_full (by_id id) l).1 ≡ l
    same l = refl

-- A transaction keeps the statuses if its body does whenever it succeeds.
pub settle-IsDerived :
    {A : Type 0} (l : Ledger) (r : Result A × Ledger)
    → IsDerived l
    → ((a : A) (m : Ledger) → r ≡ (ok a, m) → IsDerived m)
    → IsDerived (settle l r).1
settle-IsDerived l (ok a, m) h k = k a m refl
settle-IsDerived l (err x, m) h k = record { ids = h.ids; statuses = h.statuses }

-- A payment to one invoice leaves what is paid on the others.
payments_of-other :
    (id : String) (ps : List PaymentRow) (p : PaymentRow)
    → p.invoice_id ≢ id
    → payments_of id (ps ++ (p ∷ [])) ≡ payments_of id ps
unfolding payments_of
payments_of-other id [] p ne = elim (Bool-cases (str_eq p.invoice_id id)) [
  | inl same ↦ absurd (ne ((str_eq_iff p.invoice_id id).0 same))
  | inr other ↦ rw other
]
payments_of-other id (q ∷ qs) p ne = elim (Bool-cases (str_eq q.invoice_id id)) [
  | inl same ↦ rw same (ap (λ x. q ∷ x) (payments_of-other id qs p ne))
  | inr other ↦ rw other (payments_of-other id qs p ne)
]

pub pay-IsDerivedBut :
    (l m : Ledger) (p : PaymentRow) (f : InvoiceRow → InvoiceRow)
    → ((r : InvoiceRow) → (f r).id ≡ r.id)
    → m.invoices ≡ update_invoices p.invoice_id f l.invoices
    → m.payments ≡ l.payments ++ (p ∷ [])
    → IsDerived l
    → IsDerivedBut p.invoice_id m
pay-IsDerivedBut l m p f same i ps h = record {
  ids = subst IdsDiffer (sym i) (update_invoices-IdsDiffer p.invoice_id f l.invoices same h.ids);
  statuses =
      subst (λ x. All (StatusBut p.invoice_id x) m.invoices) (sym ps)
        (subst (All (StatusBut p.invoice_id (l.payments ++ (p ∷ [])))) (sym i) (
          update_invoices-All (StatusOf l.payments)
            (StatusBut p.invoice_id (l.payments ++ (p ∷ []))) p.invoice_id f l.invoices h.statuses
            (λ r s at ne. absurd (ne (same r ∙ at)))
            (λ r s ne _ alive.
              s alive
              ∙ ap (λ x. payment_status r.total_cents (sum_payments x))
                  (sym (payments_of-other r.id l.payments p (λ e. ne (sym e)))))));
}

-- An edit of one invoice that keeps its id.
pub edit-IsDerivedBut :
    (id : String) (l : Ledger) (f : InvoiceRow → InvoiceRow)
    → ((r : InvoiceRow) → (f r).id ≡ r.id)
    → IsDerived l
    → IsDerivedBut id (record l { invoices = update_invoices id f l.invoices })
edit-IsDerivedBut id l f same h = record {
  ids = update_invoices-IdsDiffer id f l.invoices same h.ids;
  statuses =
      update_invoices-All (StatusOf l.payments) (StatusBut id l.payments) id f l.invoices h.statuses
        (λ r s at ne. absurd (ne (same r ∙ at))) (λ r s _ _. s);
}
