-- ===== src/Provider/Recovery.antt =====
-- Creation by the in-memory provider, and the lookup that finds what was created.
use qbo_invoice_sync.Common.{
  ℕ, ◌≡◌, refl, sym, ap, subst, ◌∙◌, ◌⊎◌, inl, inr, Bool, true, ◌&&◌, none, some, List, [], ◌∷◌,
  String, str_eq, str_eq_refl, Bool-cases,
}
use qbo_invoice_sync.Errors.{Result, ok, err}
use qbo_invoice_sync.Action.{◌>>=◌}
use qbo_invoice_sync.Invoice.{CanonicalInvoice}
use qbo_invoice_sync.Provider.{ExternalInvoiceState}
use qbo_invoice_sync.Provider.Fake.{
  StoredInvoice, FakeState, FailureMode, transient, permanent, timeout_after_write, injected,
  find_numbered, set_stored, not_deleted, state_of, create_invoice, find_invoice_by_doc_number,
}

abbrev numbered : String → StoredInvoice → Bool
numbered doc x = str_eq x.invoice.doc_number doc && not_deleted x.invoice.status

find_numbered-set_stored :
    (doc : String) (new : StoredInvoice) (xs : List StoredInvoice)
    → find_numbered doc xs ≡ none
    → numbered doc new ≡ true
    → find_numbered doc (set_stored new xs) ≡ some new
unfolding find_numbered set_stored
find_numbered-set_stored doc new [] h k = rw k
find_numbered-set_stored doc new (y ∷ ys) h k = elim (Bool-cases (numbered doc y)) [
  | inl hit ↦ let f = rw hit at h in absurd (cc)
  | inr miss ↦ elim (Bool-cases (str_eq y.external_id new.external_id)) [
    | inl same ↦ rw same (rw k)
    | inr other ↦ rw other (rw miss (find_numbered-set_stored doc new ys (rw miss at h) k))
  ]
]

module _ (uuid print : ℕ → String) (i : CanonicalInvoice) where
  abbrev new_stored : FakeState → StoredInvoice
  new_stored s = record { external_id = uuid s.draws; sync_token = 0; invoice = i }

  create_invoice-written :
      (s : FakeState) (f : List FailureMode)
      → s.failures ≡ f
      → ((x : ExternalInvoiceState) × ((create_invoice uuid print i s).0 ≡ ok x))
        ⊎ ((create_invoice uuid print i s).0 ≡ err (injected timeout_after_write))
      → (create_invoice uuid print i s).1.invoices ≡ set_stored (new_stored s) s.invoices
  unfolding create_invoice ◌>>=◌
  create_invoice-written s [] e went = rw e
  create_invoice-written s (transient ∷ rest) e (inl (x, q)) = let f = rw e at q in absurd (cc)
  create_invoice-written s (transient ∷ rest) e (inr q) = let f = rw e at q in absurd (cc)
  create_invoice-written s (permanent ∷ rest) e (inl (x, q)) = let f = rw e at q in absurd (cc)
  create_invoice-written s (permanent ∷ rest) e (inr q) = let f = rw e at q in absurd (cc)
  create_invoice-written s (timeout_after_write ∷ rest) e went = rw e

  find_by_number-found :
      (s : FakeState) (x : StoredInvoice)
      → find_numbered i.doc_number s.invoices ≡ some x
      → (find_invoice_by_doc_number uuid print i.doc_number s).0 ≡ ok (some (state_of uuid print x))
  unfolding find_invoice_by_doc_number ◌>>=◌
  find_by_number-found s x found = rw found

  -- A creation whose answer is lost is not lost itself: if the provider had no live invoice of the
  -- number, and the new one is not deleted, then after the creation was answered, or its answer was
  -- lost after the write, the lookup by number returns the invoice that was sent.
  pub create_recovers :
      (s s' : FakeState) (r : Result ExternalInvoiceState)
      → find_numbered i.doc_number s.invoices ≡ none
      → not_deleted i.status ≡ true
      → create_invoice uuid print i s ≡ (r, s')
      → ((x : ExternalInvoiceState) × (r ≡ ok x)) ⊎ (r ≡ err (injected timeout_after_write))
      → (find_invoice_by_doc_number uuid print i.doc_number s').0
        ≡ ok (some (record { external_id = uuid s.draws; sync_token = print 0; invoice = some i }))
  create_recovers s s' r unknown live e went = find_by_number-found s' (new_stored s) (
      ap (find_numbered i.doc_number) (sym (ap (λ p. p.1.invoices) e) ∙ written)
      ∙ find_numbered-set_stored i.doc_number (new_stored s) s.invoices unknown both)
    where
      both : numbered i.doc_number (new_stored s) ≡ true
      both = rw (str_eq_refl i.doc_number, live)

      written : (create_invoice uuid print i s).1.invoices ≡ set_stored (new_stored s) s.invoices
      written = create_invoice-written s s.failures refl (
          subst
            (λ q.
              ((x : ExternalInvoiceState) × (q ≡ ok x)) ⊎ (q ≡ err (injected timeout_after_write)))
            (sym (ap (λ p. p.0) e)) went)
