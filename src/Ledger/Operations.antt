-- ===== src/Ledger/Operations.antt =====
-- The operations of the internal system as steps, and the invariant along them.
use qbo_invoice_sync.Common.{
  ◌≡◌, refl, sym, ap, subst, ◌∙◌, Bool, false, Option, none, some, List, [], ◌∷◌, ◌++◌, String,
}
use qbo_invoice_sync.Common.Int.{ℤ}
use qbo_invoice_sync.Errors.{SyncError, ok}
use qbo_invoice_sync.Action.{or_raise, guard, >>=-ok}
use qbo_invoice_sync.Invoice.{CanonicalLine}
use qbo_invoice_sync.Ledger.{
  PaymentRow, InvoiceRow, Ledger, InternalInvoice, Fresh, update_invoice, is_dead, update_invoices,
  recompute_payment_status, must_get,
}
use qbo_invoice_sync.Ledger.Editing.{
  InvoiceChanges, LineInput, PaymentInput, Terminal, to_voided, to_deleted, terminal_status,
  add_payment, set_lifecycle, update, payment_row, bump_row, edit_row, end_row, insert_lines,
  replace_lines,
}
use qbo_invoice_sync.Ledger.Applying.{
  AppliedPayment, find_by_ref, apply_or_converge, apply_external_payment,
}
use qbo_invoice_sync.Ledger.Status.{
  StatusOf, IsDerived, IsDerivedBut, update_invoices-All, update_invoices-IdsDiffer,
  recompute_status-IsDerived,
}
use qbo_invoice_sync.Ledger.Once.{settle-ok, state-eq, apply-cases}
use qbo_invoice_sync.Ledger.Derived.{
  Same, Same-IsDerived, but, must_get-Same, pay-IsDerivedBut, edit-IsDerivedBut,
}

-- Recomputing the status of the one invoice in doubt, and reading it back.
pub recompute_and_get :
    (id : String) (l m n : Ledger) {u : Unit} {i : InternalInvoice}
    → IsDerivedBut id l
    → recompute_payment_status id l ≡ (ok u, m)
    → must_get id m ≡ (ok i, n)
    → IsDerived n
recompute_and_get id l m n h e f =
    Same-IsDerived m n (must_get-Same id m n f) (recompute_status-IsDerived id l m e h)

-- A guard that let through changes nothing.
pub guard-eq :
    (c : Bool) (x : SyncError) (l m : Ledger) {u : Unit} → guard c x l ≡ (ok u, m) → m ≡ l
guard-eq c x l m e = sym (ap (λ p. p.1) e)

pub or_raise-eq :
    {A : Type 0} (x : SyncError) (o : Option A) (l m : Ledger) {a : A}
    → or_raise x o l ≡ (ok a, m)
    → m ≡ l
or_raise-eq x none l m e = cc
or_raise-eq x (some a) l m e = sym (ap (λ p. p.1) e)

pub eq-Same : {l m : Ledger} → m ≡ l → Same l m
eq-Same e = (ap (λ x. x.invoices) e, ap (λ x. x.payments) e)

pub Same-trans : (l m n : Ledger) → Same l m → Same m n → Same l n
Same-trans l m n s t = (t.0 ∙ s.0, t.1 ∙ s.1)

pub insert_lines-Same :
    (id : String) (ls : List CanonicalLine) (l m : Ledger) {u : Unit}
    → insert_lines id ls l ≡ (ok u, m)
    → Same l m
unfolding insert_lines
insert_lines-Same id ls l m e =
    let (_, l1, e1, r1) = >>=-ok _ _ l e in
    Same-trans l l1 m (eq-Same (guard-eq _ _ l l1 e1))
      (sym (ap (λ p. p.1.invoices) r1), sym (ap (λ p. p.1.payments) r1))

module _ (t : Fresh) (l m : Ledger) (h : IsDerived l) where
  pub add_payment-IsDerived :
      (id : String) (p : PaymentInput) {a : InternalInvoice × String}
      → add_payment t id p l ≡ (ok a, m)
      → IsDerived m
  unfolding add_payment
  add_payment-IsDerived id p e =
      let (_, l1, e1, r1) = >>=-ok _ _ l (settle-ok l _ e) in
      let (_, l2, e2, r2) = >>=-ok _ _ l1 r1 in
      let (_, l3, e3, r3) = >>=-ok _ _ l2 r2 in
      let (_, l4, e4, r4) = >>=-ok _ _ l3 r3 in
      let (_, l5, e5, r5) = >>=-ok _ _ l4 r4 in
      let (_, l6, e6, r6) = >>=-ok _ _ l5 r5 in
      let same = guard-eq _ _ l1 l2 e2 ∙ sym (ap (λ x. x.1) e1) in
      let row = payment_row t id p none in
      let paid =
        pay-IsDerivedBut l l4 row (bump_row t) (λ r. refl)
          (sym (ap (λ x. x.1.invoices) e4)
            ∙ ap (update_invoices id (bump_row t))
                (sym (ap (λ x. x.1.invoices) e3) ∙ ap (λ x. x.invoices) same))
          (sym (ap (λ x. x.1.payments) e4)
            ∙ sym (ap (λ x. x.1.payments) e3)
            ∙ ap (λ x. x.payments ++ (row ∷ [])) same)
          h in
      subst IsDerived (state-eq r6).1 (recompute_and_get id l4 l5 l6 paid e5 e6)

  pub set_lifecycle-IsDerived :
      (id : String) (status : Terminal) {a : InternalInvoice}
      → set_lifecycle t id status l ≡ (ok a, m)
      → IsDerived m
  unfolding set_lifecycle
  set_lifecycle-IsDerived id status e =
      let (_, l1, e1, r1) = >>=-ok _ _ l (settle-ok l _ e) in
      let (_, l2, e2, r2) = >>=-ok _ _ l1 r1 in
      let (_, l3, e3, r3) = >>=-ok _ _ l2 r2 in
      let same = or_raise-eq _ _ l1 l2 e2 ∙ sym (ap (λ x. x.1) e1) in
      let ended : IsDerived
          (record l { invoices = update_invoices id (end_row t status) l.invoices }) =
        record {
          ids = update_invoices-IdsDiffer id _ l.invoices (λ r. refl) h.ids;
          statuses =
              update_invoices-All (StatusOf l.payments) (StatusOf l.payments) id _ l.invoices
                h.statuses (λ r s at alive. dead_status status alive) (λ r s ne. s);
        } in
      Same-IsDerived l3 m (must_get-Same id l3 m r3) (
        Same-IsDerived _ l3
          (
            sym (ap (λ x. x.1.invoices) e3)
                ∙ ap (λ x. update_invoices id (end_row t status) x.invoices) same,
            sym (ap (λ x. x.1.payments) e3) ∙ ap (λ x. x.payments) same,
          )
          ended)
    where
      dead_status : {A : Type 0} (status : Terminal) → is_dead (terminal_status status) ≡ false → A
      dead_status to_voided e = cc
      dead_status to_deleted e = cc

  converge-IsDerived :
      (id : String) (p : PaymentInput) (ref : String) (o : Option PaymentRow) {a : AppliedPayment}
      → apply_or_converge t id p ref o l ≡ (ok a, m)
      → IsDerived m
  converge-IsDerived id p ref none e =
      let (_, l1, e1, r1) = >>=-ok _ _ l e in
      let (_, l2, e2, r2) = >>=-ok _ _ l1 r1 in
      let (_, l3, e3, r3) = >>=-ok _ _ l2 r2 in
      let (_, l4, e4, r4) = >>=-ok _ _ l3 r3 in
      let row = payment_row t id p (some ref) in
      let paid =
        pay-IsDerivedBut l l2 row (bump_row t) (λ r. refl)
          (sym (ap (λ x. x.1.invoices) e2)
            ∙ ap (update_invoices id (bump_row t)) (sym (ap (λ x. x.1.invoices) e1)))
          (sym (ap (λ x. x.1.payments) e2) ∙ sym (ap (λ x. x.1.payments) e1)) h in
      subst IsDerived (state-eq r4).1 (recompute_and_get id l2 l3 l4 paid e3 e4)
  converge-IsDerived id p ref (some x) e =
      let (_, l1, e1, r1) = >>=-ok _ _ l e in
      let (_, l2, e2, r2) = >>=-ok _ _ l1 r1 in
      subst IsDerived (state-eq r2).1
        (recompute_and_get x.invoice_id l l1 l2 (but x.invoice_id l h) e1 e2)

  pub apply_external_payment-IsDerived :
      (id : String) (p : PaymentInput) (ref : String) {a : AppliedPayment}
      → apply_external_payment t id p ref l ≡ (ok a, m)
      → IsDerived m
  apply_external_payment-IsDerived id p ref {a} e =
      converge-IsDerived id p ref (find_by_ref ref l.payments) (apply-cases t id p ref l m a e)

replace_lines-Same :
    (id : String) (total : ℤ) (o : Option (List LineInput)) (l m : Ledger) {x : ℤ}
    → replace_lines id total o l ≡ (ok x, m)
    → Same l m
replace_lines-Same id total none l m e = eq-Same (sym (ap (λ p. p.1) e))
replace_lines-Same id total (some ls) l m e =
    let (_, l1, e1, r1) = >>=-ok _ _ l e in
    let (_, l2, e2, r2) = >>=-ok _ _ l1 r1 in
    Same-trans l l1 m (sym (ap (λ p. p.1.invoices) e1), sym (ap (λ p. p.1.payments) e1))
      (Same-trans l1 l2 m (insert_lines-Same id _ l1 l2 e2) (eq-Same (sym (ap (λ p. p.1) r2))))

pub update_invoice-IsDerivedBut :
    (id : String) (f : InvoiceRow → InvoiceRow) (l m : Ledger) {u : Unit}
    → ((r : InvoiceRow) → (f r).id ≡ r.id)
    → IsDerived l
    → update_invoice id f l ≡ (ok u, m)
    → IsDerivedBut id m
update_invoice-IsDerivedBut id f l m same h e =
    subst (IsDerivedBut id) (ap (λ p. p.1) e) (edit-IsDerivedBut id l f same h)

module _ (t : Fresh) (l m : Ledger) (h : IsDerived l) where
  pub update-IsDerived :
      (id : String) (changes : InvoiceChanges) {a : InternalInvoice}
      → update t id changes l ≡ (ok a, m)
      → IsDerived m
  unfolding update
  update-IsDerived id changes e =
      let (_, l1, e1, r1) = >>=-ok _ _ l (settle-ok l _ e) in
      let (row, l2, e2, r2) = >>=-ok _ _ l1 r1 in
      let (_, l3, e3, r3) = >>=-ok _ _ l2 r2 in
      let (total, l4, e4, r4) = >>=-ok _ _ l3 r3 in
      let (_, l5, e5, r5) = >>=-ok _ _ l4 r4 in
      let (_, l6, e6, r6) = >>=-ok _ _ l5 r5 in
      let (_, l7, e7, r7) = >>=-ok _ _ l6 r6 in
      let (_, l8, e8, r8) = >>=-ok _ _ l7 r7 in
      let before = guard-eq _ _ l2 l3 e3 ∙ or_raise-eq _ _ l1 l2 e2 ∙ sym (ap (λ x. x.1) e1) in
      let after = guard-eq _ _ l5 l6 e6 ∙ sym (ap (λ x. x.1) e5) in
      let kept = Same-IsDerived l4 l6 (eq-Same after) (
        Same-IsDerived l3 l4 (replace_lines-Same id _ changes.lines l3 l4 e4)
          (subst IsDerived (sym before) h)) in
      recompute_and_get id l7 l8 m
        (update_invoice-IsDerivedBut id (edit_row t changes total) l6 l7 (λ r. refl) kept e7) e8 r8
