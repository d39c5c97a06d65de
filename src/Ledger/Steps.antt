-- ===== src/Ledger/Steps.antt =====
-- The internal system as a step relation: the operations, from whichever caller, in any order.
use qbo_invoice_sync.Common.{ℕ, ◌≡◌, ap, subst, Option, [], String}
use qbo_invoice_sync.Errors.{SyncError, Result, ok, err}
use qbo_invoice_sync.Action.{Action}
use qbo_invoice_sync.Invoice.{CanonicalInvoice}
use qbo_invoice_sync.Ledger.{Ledger, InternalInvoice, Fresh, settle, transaction, payments_of}
use qbo_invoice_sync.Ledger.Editing.{
  InternalInvoiceInput, InvoiceChanges, PaymentInput, Terminal, add_payment, set_lifecycle, update,
  create,
}
use qbo_invoice_sync.Ledger.Applying.{AppliedPayment, apply_external_payment, apply_canonical}
use qbo_invoice_sync.Ledger.Status.{IsDerived}
use qbo_invoice_sync.Ledger.Operations.{
  add_payment-IsDerived, set_lifecycle-IsDerived, apply_external_payment-IsDerived,
  update-IsDerived,
}
use qbo_invoice_sync.Ledger.Insertions.{create-IsDerived, apply_canonical-IsDerived}

-- One transaction: an operation that succeeded, or any one that threw. A new invoice has an id that
-- no payment refers to, as random ids have.
pub data LedgerStep (print : ℕ → String) (l m : Ledger) : Type 1 where
  created :
      (t : Fresh) (input : InternalInvoiceInput) (a : InternalInvoice)
      → payments_of t.id l.payments ≡ []
      → create print t input l ≡ (ok a, m)
      → LedgerStep print l m
  updated :
      (t : Fresh) (id : String) (changes : InvoiceChanges) (a : InternalInvoice)
      → update t id changes l ≡ (ok a, m)
      → LedgerStep print l m
  ended :
      (t : Fresh) (id : String) (status : Terminal) (a : InternalInvoice)
      → set_lifecycle t id status l ≡ (ok a, m)
      → LedgerStep print l m
  paid_in :
      (t : Fresh) (id : String) (p : PaymentInput) (a : InternalInvoice × String)
      → add_payment t id p l ≡ (ok a, m)
      → LedgerStep print l m
  synced :
      (t : Fresh) (invoice : CanonicalInvoice) (existing_id : Option String) (a : InternalInvoice)
      → apply_canonical t invoice existing_id l ≡ (ok a, m)
      → LedgerStep print l m
  payment_synced :
      (t : Fresh) (id : String) (p : PaymentInput) (ref : String) (a : AppliedPayment)
      → apply_external_payment t id p ref l ≡ (ok a, m)
      → LedgerStep print l m
  threw :
      {A : Type 0} (body : Action Ledger A) (e : SyncError)
      → transaction body l ≡ (err e, m)
      → LedgerStep print l m

pub data LedgerReach (print : ℕ → String) (l : Ledger) : Ledger → Type 1 where
  start : LedgerReach print l l
  next : {m n : Ledger} → LedgerReach print l m → LedgerStep print m n → LedgerReach print l n

settle-err :
    {A : Type 0} (l : Ledger) (r : Result A × Ledger) {e : SyncError} {m : Ledger}
    → settle l r ≡ (err e, m)
    → IsDerived l
    → IsDerived m
settle-err l (ok a, n) q h = cc
settle-err l (err x, n) q h =
    subst IsDerived (ap (λ p. p.1) q) (record { ids = h.ids; statuses = h.statuses })

step-IsDerived :
    (print : ℕ → String) (l m : Ledger) → LedgerStep print l m → IsDerived l → IsDerived m
step-IsDerived print l m (created t input a unpaid e) h =
    create-IsDerived print t input l m h unpaid e
step-IsDerived print l m (updated t id changes a e) h = update-IsDerived t l m h id changes e
step-IsDerived print l m (ended t id status a e) h = set_lifecycle-IsDerived t l m h id status e
step-IsDerived print l m (paid_in t id p a e) h = add_payment-IsDerived t l m h id p e
step-IsDerived print l m (synced t invoice existing_id a e) h =
    apply_canonical-IsDerived t invoice existing_id l m h e
step-IsDerived print l m (payment_synced t id p ref a e) h =
    apply_external_payment-IsDerived t l m h id p ref e
step-IsDerived print l m (threw body x e) h = settle-err l (body l) e h

-- The payment status is right in every state: from a state whose invoices have different ids and,
-- unless voided or deleted, the status (open, partial, paid) that their totals and payments call
-- for, every sequence of creations, updates, lifecycle changes, payments and synchronised writes,
-- failed ones included, leads to such a state. A created invoice has an id that no payment refers
-- to.
pub ledger-IsDerived :
    (print : ℕ → String) (l m : Ledger) → IsDerived l → LedgerReach print l m → IsDerived m
ledger-IsDerived print l n h start = h
ledger-IsDerived print l n h (next {m} r s) =
    step-IsDerived print m n s (ledger-IsDerived print l m h r)
