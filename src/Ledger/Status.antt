-- ===== src/Ledger/Status.antt =====
-- The status of a live invoice is the one that its payments call for.
use qbo_invoice_sync.Common.{
  ◌≡◌, ◌≢◌, refl, sym, ap, subst, ◌∙◌, inl, inr, true, false, some, List, [], ◌∷◌, String, str_eq,
  str_eq_iff, arith, All, All-map, Bool-cases, Option-cases,
}
use qbo_invoice_sync.Common.Int.{ℤ}
use qbo_invoice_sync.Errors.{ok}
use qbo_invoice_sync.Ledger.{
  PaymentRow, InvoiceRow, Ledger, is_dead, find_invoice, update_invoices, payments_of, sum_payments,
  payment_status, recompute, recompute_row, recompute_payment_status,
}

-- A live row has the status that its total and the payments call for.
abbrev pub StatusOf : List PaymentRow → InvoiceRow → Type 0
StatusOf ps r =
    is_dead r.status ≡ false
    → r.status ≡ payment_status r.total_cents (sum_payments (payments_of r.id ps))

-- The same, for the rows other than those of the id.
abbrev pub StatusBut : String → List PaymentRow → InvoiceRow → Type 0
StatusBut id ps r = r.id ≢ id → StatusOf ps r

abbrev pub IdsDiffer : List InvoiceRow → Type 0
IdsDiffer [] = Unit
IdsDiffer (r ∷ rs) = All (λ s. r.id ≢ s.id) rs × IdsDiffer rs

payment_status-live : (total paid : ℤ) → is_dead (payment_status total paid) ≡ false
payment_status-live total paid = ground arith

-- The row that is found is the one of the id.
pub find_invoice-id :
    (id : String) (rs : List InvoiceRow) (r : InvoiceRow) → find_invoice id rs ≡ some r → r.id ≡ id
unfolding find_invoice
find_invoice-id id [] r e = cc
find_invoice-id id (s ∷ rs) r e = elim (Bool-cases (str_eq s.id id)) [
  | inl hit ↦
      let found : some s ≡ some r = rw hit at e in
      let same : s ≡ r = cc in ap (λ x. x.id) (sym same) ∙ (str_eq_iff s.id id).0 hit
  | inr miss ↦ find_invoice-id id rs r (rw miss at e)
]

-- Any row of the id is the row that is found.
find_invoice-others :
    (id : String) (rs : List InvoiceRow) (r : InvoiceRow)
    → find_invoice id rs ≡ some r
    → IdsDiffer rs
    → All (λ s. s.id ≡ id → s ≡ r) rs
unfolding find_invoice
find_invoice-others id [] r e d = tt
find_invoice-others id (s ∷ rs) r e d = elim (Bool-cases (str_eq s.id id)) [
  | inl hit ↦
      let found : some s ≡ some r = rw hit at e in
      let same : s ≡ r = cc in
      let at : s.id ≡ id = (str_eq_iff s.id id).0 hit in
      (λ _. same, All-map (λ t ne q. absurd (ne (at ∙ sym q))) rs d.0)
  | inr miss ↦ (
    λ at. let h = (str_eq_iff s.id id).1 at in absurd (cc),
    find_invoice-others id rs r (rw miss at e) d.1,
  )
]

pub update_invoices-All {ℓ κ} :
    (P : InvoiceRow → Type ℓ) (Q : InvoiceRow → Type κ) (id : String) (f : InvoiceRow → InvoiceRow)
    (rs : List InvoiceRow)
    → All P rs
    → ((r : InvoiceRow) → P r → r.id ≡ id → Q (f r))
    → ((r : InvoiceRow) → P r → r.id ≢ id → Q r)
    → All Q (update_invoices id f rs)
unfolding update_invoices
update_invoices-All P Q id f [] h at other = tt
update_invoices-All P Q id f (r ∷ rs) h at other =
    let rest = update_invoices-All P Q id f rs h.1 at other in
    elim (Bool-cases (str_eq r.id id)) [
      | inl hit ↦ rw hit (at r h.0 ((str_eq_iff r.id id).0 hit), rest)
      | inr miss ↦
          rw miss (other r h.0 (λ e. let k = (str_eq_iff r.id id).1 e in absurd (cc)), rest)
    ]

pub update_invoices-IdsDiffer :
    (id : String) (f : InvoiceRow → InvoiceRow) (rs : List InvoiceRow)
    → ((r : InvoiceRow) → (f r).id ≡ r.id)
    → IdsDiffer rs
    → IdsDiffer (update_invoices id f rs)
unfolding update_invoices
update_invoices-IdsDiffer id f [] same d = tt
update_invoices-IdsDiffer id f (r ∷ rs) same d =
    let later =
      update_invoices-All (λ s. r.id ≢ s.id) (λ s. r.id ≢ s.id) id f rs d.0
        (λ s ne _ e. ne (e ∙ same s)) (λ s ne _. ne) in
    let rest = update_invoices-IdsDiffer id f rs same d.1 in
    elim (Bool-cases (str_eq r.id id)) [
      | inl hit ↦
          rw hit
            (subst (λ n. All (λ s. n ≢ s.id) (update_invoices id f rs)) (sym (same r)) later, rest)
      | inr miss ↦ rw miss (later, rest)
    ]

All-both {ℓ κ} :
    {A : Type 0} (P : A → Type ℓ) (Q : A → Type κ) (xs : List A)
    → All P xs
    → All Q xs
    → All (λ x. P x × Q x) xs
All-both P Q [] h k = tt
All-both P Q (x ∷ xs) h k = ((h.0, k.0), All-both P Q xs h.1 k.1)

-- The invariant of the internal system: the ids differ, and every live invoice has the status that
-- its payments call for.
pub record IsDerived (l : Ledger) : Type 0 where
  pub ids : IdsDiffer l.invoices
  pub statuses : All (StatusOf l.payments) l.invoices

-- All but the invoice of one id.
pub record IsDerivedBut (id : String) (l : Ledger) : Type 0 where
  pub ids : IdsDiffer l.invoices
  pub statuses : All (StatusBut id l.payments) l.invoices

module _ (id : String) where
  recompute-IsDerived :
      (l : Ledger) (row : InvoiceRow)
      → find_invoice id l.invoices ≡ some row
      → IsDerivedBut id l
      → IsDerived (recompute l row)
  recompute-IsDerived l row found h =
      let at : row.id ≡ id = find_invoice-id id l.invoices row found in
      let both =
        All-both (StatusBut id l.payments) (λ s. s.id ≡ id → s ≡ row) l.invoices h.statuses
          (find_invoice-others id l.invoices row found h.ids) in
      elim (Bool-cases (is_dead row.status)) [
        | inl dead ↦ rw dead (record {
          ids = h.ids;
          statuses = All-map (λ s k. dead_or_other s k dead) l.invoices both;
        })
        | inr live ↦ rw live (record {
          ids = update_invoices-IdsDiffer row.id _ l.invoices (λ r. refl) h.ids;
          statuses =
              update_invoices-All (λ s. StatusBut id l.payments s × (s.id ≡ id → s ≡ row))
                (StatusOf l.payments) row.id _ l.invoices both
                (λ s k e _.
                  ap
                    (λ x. payment_status x.total_cents (sum_payments (payments_of x.id l.payments)))
                    (sym (k.1 (e ∙ at))))
                (λ s k ne. k.0 (λ e. ne (e ∙ sym at)));
        })
      ]
    where
      true_false : true ≡ false → ⊥
      true_false e = cc

      dead_or_other :
          (s : InvoiceRow)
          → StatusBut id l.payments s × (s.id ≡ id → s ≡ row)
          → is_dead row.status ≡ true
          → StatusOf l.payments s
      dead_or_other s k dead alive = elim (Bool-cases (str_eq s.id id)) [
        | inl same ↦
            let e = k.1 ((str_eq_iff s.id id).0 same) in
            absurd (true_false (sym dead ∙ ap (λ x. is_dead x.status) (sym e) ∙ alive))
        | inr other ↦
            k.0 (λ e. let q = (str_eq_iff s.id id).1 e in absurd (true_false (sym q ∙ other))) alive
      ]

  pub recompute_status-IsDerived :
      (l m : Ledger) {u : Unit}
      → recompute_payment_status id l ≡ (ok u, m)
      → IsDerivedBut id l
      → IsDerived m
  unfolding recompute_payment_status
  recompute_status-IsDerived l m e h = elim (Option-cases (find_invoice id l.invoices)) [
    | inl nothing ↦ let f = rw nothing at e in absurd (cc)
    | inr (row, found) ↦
        let f : (recompute_row l (some row)).1 ≡ m = rw found at (ap (λ p. p.1) e) in
        subst IsDerived f (recompute-IsDerived l row found h)
  ]
