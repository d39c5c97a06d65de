-- ===== src/Controllers/Invoices/Whole.antt =====
-- The changes of src/models/repositories/internalInvoiceRepository.ts that the controller calls are all
-- or nothing, and read their invoice back at the end.
use qbo_invoice_sync.Common.{
  ℕ, Bool-cases, Option-cases, inl, inr, str_eq, ◌≡◌, refl, sym, ap, subst, ◌∙◌, Option, none, some,
  String,
}
use qbo_invoice_sync.Errors.{SyncError, Result, ok, err}
use qbo_invoice_sync.Action.{Action, pure, continue, ◌>>=◌, >>=-ok, pure-ok, or_raise-ok}
use qbo_invoice_sync.Ledger.{
  Ledger, Fresh, InternalInvoice, InvoiceRow, by_id, settle, transaction, must_get, find_invoice,
  find_customer, full_invoice, joined, fetch_full, not_found,
}
use qbo_invoice_sync.Ledger.Status.{find_invoice-id}
use qbo_invoice_sync.Ledger.Once.{settle-ok}
use qbo_invoice_sync.Ledger.Editing
use qbo_invoice_sync.Ledger.Editing.{
  InternalInvoiceInput, InvoiceChanges, PaymentInput, Terminal, to_voided, to_deleted,
  set_lifecycle,
}
use qbo_invoice_sync.Controllers.Invoices.{named, with_id}

-- A change of the tables that is all or nothing, and ends with the invoice under a key, as the tables
-- then have it, and with the id of what was changed.
pub record IsWhole (key changed_id : String) (change : Action Ledger (InternalInvoice × String))
    : Type 0 where
  pub done :
      (l m : Ledger) (i : InternalInvoice) (id : String)
      → change l ≡ (ok (i, id), m)
      → ((must_get key m).0 ≡ ok i) × (i.id ≡ key) × (id ≡ changed_id)
  pub undone :
      (l m : Ledger) (e : SyncError)
      → change l ≡ (err e, m)
      → m ≡ record l { doc_number_seq = m.doc_number_seq }

-- What a successful action ends with.
abbrev Reads : {S A : Type 0} → (A → S → Type 0) → Action S A → Type 0
Reads P m = (s t : _) (a : _) → m s ≡ (ok a, t) → P a t

>>=-Reads :
    {S A B : Type 0} (P : B → S → Type 0) (m : Action S A) (f : A → Action S B)
    → ((a : A) → Reads P (f a))
    → Reads P (m >>= f)
>>=-Reads P m f h s t b e = let (a, u, p, q) = >>=-ok m f s e in h a u t b q

-- The invoice is the one that the tables have under the key, which is its id.
abbrev Current : String → InternalInvoice → Ledger → Type 0
Current key i m = ((must_get key m).0 ≡ ok i) × (i.id ≡ key)

joined-id :
    (id : String) (l : Ledger) (found : Option InvoiceRow) {i : InternalInvoice}
    → find_invoice id l.invoices ≡ found
    → joined l found ≡ some i
    → i.id ≡ id
unfolding full_invoice
joined-id id l none h e = cc
joined-id id l (some row) {i} h e =
    elim (Option-cases (find_customer row.customer_id l.customers)) [
      | inl nobody ↦ absurd (let f = rw (nobody, joined) at e in cc)
      | inr (c, known) ↦
          let f : some (full_invoice l row c) ≡ some i = rw (known, joined) at e in
          let same : full_invoice l row c ≡ i = cc in
          sym (ap (λ x. x.id) same) ∙ find_invoice-id id l.invoices row h
    ]

read_by_id :
    (id : String) (l t : Ledger) (o : Option InternalInvoice)
    → fetch_full (by_id id) l ≡ (ok o, t)
    → (joined l (find_invoice id l.invoices) ≡ o) × (l ≡ t)
unfolding fetch_full
read_by_id id l t o e = elim (Bool-cases (str_eq id "")) [
  | inl empty ↦ let f = rw empty at e in absurd (cc)
  | inr given ↦ let f = rw given at e in pure-ok (joined l (find_invoice id l.invoices)) l f
]

must_get-Current : (id : String) → Reads (Current id) (must_get id)
unfolding must_get
must_get-Current id l m i e =
    let (o, t, read, raised) = >>=-ok (fetch_full (by_id id)) _ l e in
    let (found, same) = read_by_id id l t o read in
    let (there, last) = or_raise-ok not_found o t raised in
    let by_key = joined-id id l (find_invoice id l.invoices) refl (found ∙ there) in
    (subst (λ x. (must_get id x).0 ≡ ok i) (same ∙ last) (ap (λ r. r.0) e), by_key)

rolled_back :
    (l m : Ledger) (seq : ℕ)
    → record l { doc_number_seq = seq } ≡ m
    → m ≡ record l { doc_number_seq = m.doc_number_seq }
rolled_back l m seq e = sym e ∙ ap (λ k. record l { doc_number_seq = k.doc_number_seq }) e

settle-err :
    {A : Type 0} (l : Ledger) (r : Result A × Ledger) (m : Ledger) (x : SyncError)
    → settle l r ≡ (err x, m)
    → m ≡ record l { doc_number_seq = m.doc_number_seq }
settle-err l (ok a, n) m x e = cc
settle-err l (err y, n) m x e = rolled_back l m n.doc_number_seq (ap (λ r. r.1) e)

with_id-eq :
    (change : Action Ledger InternalInvoice) (l : Ledger) (r : Result InternalInvoice × Ledger)
    → change l ≡ r
    → with_id change l ≡ continue named r
unfolding ◌>>=◌
with_id-eq change l r e = ap (continue named) e

-- A transaction that reads its invoice back at the end.
module _ (key : String) (body : Action Ledger InternalInvoice)
    (reads : Reads (Current key) body) where
  transaction-IsWhole : IsWhole key key (with_id (transaction body))
  transaction-IsWhole = record {
    done = λ l m i id e.
        let (j, t, p, q) = >>=-ok (transaction body) _ l e in
        let (same, end) = pure-ok (j, j.id) t q in
        let (stored, named_so) = reads l t j (settle-ok l (body l) p) in
        (
          ap (λ x. (must_get key x).0) (sym end) ∙ stored ∙ ap (λ x. ok x.0) same,
          ap (λ x. x.0.id) (sym same) ∙ named_so,
          ap (λ x. x.1) (sym same) ∙ named_so,
        );
    undone = λ l m x e.
        fails l (body l) m x (sym (with_id-eq (transaction body) l (settle l (body l)) refl) ∙ e);
  }
    where
      fails :
          (l : Ledger) (r : Result InternalInvoice × Ledger) (m : Ledger) (x : SyncError)
          → continue named (settle l r) ≡ (err x, m)
          → m ≡ record l { doc_number_seq = m.doc_number_seq }
      fails l (ok a, n) m x e = cc
      fails l (err y, n) m x e = rolled_back l m n.doc_number_seq (ap (λ r. r.1) e)

module _ (print : ℕ → String) (t : Fresh) where
  pub create-IsWhole :
      (input : InternalInvoiceInput) → IsWhole t.id t.id (with_id (Editing.create print t input))
  unfolding Editing.create
  create-IsWhole input = transaction-IsWhole t.id _ (
      >>=-Reads (Current t.id) _ _ (λ doc.
        >>=-Reads (Current t.id) _ _
          (λ _. >>=-Reads (Current t.id) _ _ (λ _. must_get-Current t.id))))

  pub update-IsWhole :
      (id : String) (changes : InvoiceChanges)
      → IsWhole id id (with_id (Editing.update t id changes))
  unfolding Editing.update
  update-IsWhole id changes = transaction-IsWhole id _ (
      >>=-Reads (Current id) _ _ (λ found. >>=-Reads (Current id) _ _ (λ current.
        >>=-Reads (Current id) _ _ (λ _. >>=-Reads (Current id) _ _ (λ total.
          >>=-Reads (Current id) _ _ (λ known. >>=-Reads (Current id) _ _ (λ _.
            >>=-Reads (Current id) _ _
              (λ _. >>=-Reads (Current id) _ _ (λ _. must_get-Current id)))))))))

  pub end-IsWhole :
      (id : String) (status : Terminal) → IsWhole id id (with_id (set_lifecycle t id status))
  unfolding set_lifecycle
  end-IsWhole id status = transaction-IsWhole id _ (
      >>=-Reads (Current id) _ _ (λ found.
        >>=-Reads (Current id) _ _
          (λ current. >>=-Reads (Current id) _ _ (λ _. must_get-Current id))))

  -- The payment's transaction reads the invoice back, and then answers the payment's id.
  pub pay-IsWhole :
      (id : String) (input : PaymentInput) → IsWhole id t.id (Editing.add_payment t id input)
  unfolding Editing.add_payment
  pay-IsWhole id input = record {
    done = λ l m i p e.
        >>=-Reads CurrentPaid _ _
          (λ allowed. >>=-Reads CurrentPaid _ _ (λ _.
            >>=-Reads CurrentPaid _ _
              (λ _. >>=-Reads CurrentPaid _ _ (λ _. >>=-Reads CurrentPaid _ _ (λ _. read_paid)))))
          l m (i, p) (settle-ok l _ e);
    undone = λ l m x e. settle-err l _ m x e;
  }
    where
      CurrentPaid : InternalInvoice × String → Ledger → Type 0
      CurrentPaid x m = ((must_get id m).0 ≡ ok x.0) × (x.0.id ≡ id) × (x.1 ≡ t.id)

      read_paid : Reads CurrentPaid (must_get id >>= λ i. pure (i, t.id))
      read_paid l m x e =
          let (i, u, p, q) = >>=-ok (must_get id) _ l e in
          let (same, end) = pure-ok (i, t.id) u q in
          let (stored, named_so) = must_get-Current id l u i p in
          (
            ap (λ y. (must_get id y).0) (sym end) ∙ stored ∙ ap (λ y. ok y.0) same,
            ap (λ y. y.0.id) (sym same) ∙ named_so,
            ap (λ y. y.1) (sym same),
          )
