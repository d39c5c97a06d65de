-- ===== src/Ledger/Once.antt =====
-- `applyExternalPayment` counts a payment once, however often it is applied.
use qbo_invoice_sync.Common.{
  ◌≡◌, refl, sym, ap, ◌∙◌, inl, inr, true, false, Option, none, some, List, [], ◌∷◌, ◌++◌, String,
  str_eq_refl, arith, Bool-cases, Option-cases,
}
use qbo_invoice_sync.Errors.{Result, ok, err}
use qbo_invoice_sync.Action.{or_raise, >>=-ok}
use qbo_invoice_sync.Ledger.{
  PaymentRow, InvoiceRow, Ledger, InternalInvoice, Fresh, settle, find_invoice, recompute_row,
  recompute_payment_status, fetch_full, must_get, by_id, not_found,
}
use qbo_invoice_sync.Ledger.Editing.{PaymentInput, payment_row}
use qbo_invoice_sync.Ledger.Applying.{
  AppliedPayment, has_ref, find_by_ref, apply_or_converge, apply_external_payment,
}

-- The payments are left as they are.
abbrev KeepsPayments : {A : Type 0} → List PaymentRow → Result A × Ledger → Type 0
KeepsPayments ps (r, l) = l.payments ≡ ps

find_by_ref-append :
    (ref : String) (ps : List PaymentRow) (p : PaymentRow)
    → find_by_ref ref ps ≡ none
    → has_ref ref p ≡ true
    → find_by_ref ref (ps ++ (p ∷ [])) ≡ some p
unfolding find_by_ref
find_by_ref-append ref [] p h k = rw k
find_by_ref-append ref (q ∷ qs) p h k = elim (Bool-cases (has_ref ref q)) [
  | inl hit ↦ let f = rw hit at h in absurd (cc)
  | inr miss ↦ rw miss (find_by_ref-append ref qs p (rw miss at h) k)
]

recompute_row-payments :
    (l : Ledger) (o : Option InvoiceRow) → (recompute_row l o).1.payments ≡ l.payments
recompute_row-payments l none = refl
recompute_row-payments l (some row) = ground arith

pub settle-ok :
    {A : Type 0} (l : Ledger) (r : Result A × Ledger) {a : A} {m : Ledger}
    → settle l r ≡ (ok a, m)
    → r ≡ (ok a, m)
settle-ok l (ok x, n) e = e
settle-ok l (err x, n) e = cc

pub state-eq :
    {A : Type 0} {a b : A} {l m : Ledger}
    → ◌≡◌ {A = Result A × Ledger} (ok a, l) (ok b, m)
    → (a ≡ b) × (l ≡ m)
state-eq e = (cc, ap (λ p. p.1) e)

module _ (id : String) where
  recompute-payments :
      (l m : Ledger) {u : Unit}
      → recompute_payment_status id l ≡ (ok u, m)
      → m.payments ≡ l.payments
  unfolding recompute_payment_status
  recompute-payments l m e =
      sym (ap (λ p. p.1.payments) e) ∙ recompute_row-payments l (find_invoice id l.invoices)

  must_get-payments :
      (l m : Ledger) {i : InternalInvoice} → must_get id l ≡ (ok i, m) → m.payments ≡ l.payments
  unfolding must_get fetch_full
  must_get-payments l m e =
      let (o, t, read, raised) = >>=-ok _ _ l e in
      sym (ap (λ p. p.1.payments) raised)
      ∙ raise_payments o t
      ∙ sym (ap (λ p. p.1.payments) read)
      ∙ same l
    where
      raise_payments :
          (o : Option InternalInvoice) (t : Ledger)
          → (or_raise not_found o t).1.payments ≡ t.payments
      raise_payments none t = refl
      raise_payments (some i) t = refl

      same : (l : Ledger) → (fetch_full (by_id id) l).1.payments ≡ l.payments
      same l = refl

module _ (t : Fresh) (id : String) (p : PaymentInput) (ref : String) where
  converge-once :
      (x : PaymentRow) (l m : Ledger) (a : AppliedPayment)
      → apply_or_converge t id p ref (some x) l ≡ (ok a, m)
      → (a.payment_id ≡ x.id) × (a.created ≡ false) × (m.payments ≡ l.payments)
  converge-once x l m a e =
      let (_, l1, first, rest) = >>=-ok _ _ l e in
      let (i, l2, second, last) = >>=-ok _ _ l1 rest in
      let (made, end) = state-eq last in
      (
        ap (λ r. r.payment_id) (sym made),
        ap (λ r. r.created) (sym made),
        ap (λ k. k.payments) (sym end)
            ∙ must_get-payments x.invoice_id l1 l2 second
            ∙ recompute-payments x.invoice_id l l1 first,
      )

  insert-once :
      (l m : Ledger) (a : AppliedPayment)
      → apply_or_converge t id p ref none l ≡ (ok a, m)
      → (a.payment_id ≡ t.id)
        × (a.created ≡ true)
        × (m.payments ≡ l.payments ++ (payment_row t id p (some ref) ∷ []))
  insert-once l m a e =
      let (_, l1, first, rest1) = >>=-ok _ _ l e in
      let (_, l2, second, rest2) = >>=-ok _ _ l1 rest1 in
      let (_, l3, third, rest3) = >>=-ok _ _ l2 rest2 in
      let (i, l4, fourth, last) = >>=-ok _ _ l3 rest3 in
      let (made, end) = state-eq last in
      (
        ap (λ r. r.payment_id) (sym made),
        ap (λ r. r.created) (sym made),
        ap (λ k. k.payments) (sym end)
            ∙ must_get-payments id l3 l4 fourth
            ∙ recompute-payments id l2 l3 third
            ∙ sym (ap (λ q. q.1.payments) second)
            ∙ sym (ap (λ q. q.1.payments) first),
      )

  -- What a payment that was applied has done, by whether its reference was known.
  pub apply-cases :
      (l m : Ledger) (a : AppliedPayment)
      → apply_external_payment t id p ref l ≡ (ok a, m)
      → apply_or_converge t id p ref (find_by_ref ref l.payments) l ≡ (ok a, m)
  unfolding apply_external_payment
  apply-cases l m a e =
      let (_, l1, first, rest1) = >>=-ok _ _ l (settle-ok l _ e) in
      let (_, l2, second, rest2) = >>=-ok _ _ l1 rest1 in
      let (_, l3, third, rest3) = >>=-ok _ _ l2 rest2 in
      let x = state-eq first in let y = state-eq second in cc

  -- After a payment was applied its reference is known.
  ref_known :
      (l m : Ledger) (a : AppliedPayment)
      → apply_external_payment t id p ref l ≡ (ok a, m)
      → (x : PaymentRow) × (find_by_ref ref m.payments ≡ some x) × (a.payment_id ≡ x.id)
  ref_known l m a e = elim (Option-cases (find_by_ref ref l.payments)) [
    | inl new ↦
        let (i, _, same) = insert-once l m a (rw new at (apply-cases l m a e)) in
        (
          payment_row t id p (some ref),
          ap (find_by_ref ref) same
              ∙ find_by_ref-append ref l.payments (payment_row t id p (some ref)) new
                  (str_eq_refl ref),
          i,
        )
    | inr (x, known) ↦
        let (i, _, same) = converge-once x l m a (rw known at (apply-cases l m a e)) in
        (x, ap (find_by_ref ref) same ∙ known, i)
  ]

-- A payment of the other system is counted once: if applying it under a reference succeeded, and
-- applying one under the same reference succeeds again, with whatever amount and invoice, the
-- second application creates nothing, names the payment of the first, and leaves the payments as
-- they were.
pub apply_once :
    (t t' : Fresh) (id id' : String) (p p' : PaymentInput) (ref : String) (l m n : Ledger)
    (a b : AppliedPayment)
    → apply_external_payment t id p ref l ≡ (ok a, m)
    → apply_external_payment t' id' p' ref m ≡ (ok b, n)
    → (b.created ≡ false) × (b.payment_id ≡ a.payment_id) × (n.payments ≡ m.payments)
apply_once t t' id id' p p' ref l m n a b e f =
    let (x, known, i) = ref_known t id p ref l m a e in
    let (j, created, same) =
      converge-once t' id' p' ref x m n b (rw known at (apply-cases t' id' p' ref m n b f)) in
    (created, j ∙ sym i, same)
