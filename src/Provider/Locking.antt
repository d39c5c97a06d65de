-- ===== src/Provider/Locking.antt =====
-- The optimistic lock of the in-memory provider: a version is written over once.
use qbo_invoice_sync.Common.{
  ℕ, ◌+◌, ◌≡◌, ◌≢◌, refl, sym, ap, subst, ◌∙◌, ◌⊎◌, inl, inr, true, some, List, [], ◌∷◌, String,
  str_eq, str_eq_iff, str_eq_refl, arith, Bool-cases, Option-cases,
}
use qbo_invoice_sync.Errors.{SyncError, ambiguous_write_error, Result, ok, err}
use qbo_invoice_sync.Action.{◌>>=◌}
use qbo_invoice_sync.Invoice.{CanonicalInvoice}
use qbo_invoice_sync.Provider.{ExternalInvoiceState}
use qbo_invoice_sync.Provider.Fake.{
  StoredInvoice, FakeState, FailureMode, transient, permanent, timeout_after_write, injected,
  find_stored, set_stored, missing, stale, update_invoice,
}

-- How an update of record `id` at version `token` ends: refused, with no record changed, or
-- written over the current version, which is `token`, and one further on. The answer to an update
-- that was written may be lost.
pub data Updated (print : ℕ → String) (id token : String) (invoice : CanonicalInvoice)
    (s s' : FakeState) (r : Result ExternalInvoiceState) : Type 0 where
  refused :
      (e : SyncError)
      → r ≡ err e
      → e.kind ≢ ambiguous_write_error
      → s'.invoices ≡ s.invoices
      → Updated print id token invoice s s' r
  written :
      (x new : StoredInvoice)
      → find_stored id s.invoices ≡ some x
      → token ≡ print x.sync_token
      → new
        ≡ record { external_id = x.external_id; sync_token = x.sync_token + 1; invoice = invoice }
      → s'.invoices ≡ set_stored new s.invoices
      → (r
          ≡ ok (record {
            external_id = x.external_id;
            sync_token = print (x.sync_token + 1);
            invoice = some invoice;
          }))
        ⊎ (r ≡ err (injected timeout_after_write))
      → Updated print id token invoice s s' r

module _ (uuid print : ℕ → String) (id token : String) (invoice : CanonicalInvoice) where
  update_stored-Updated :
      (s : FakeState) (x : StoredInvoice)
      → find_stored id s.invoices ≡ some x
      → str_eq (print x.sync_token) token ≡ true
      → (f : List FailureMode) → s.failures ≡ f
      → Updated print id token invoice s
          (update_invoice uuid print id token invoice s).1
          (update_invoice uuid print id token invoice s).0
  unfolding update_invoice ◌>>=◌
  update_stored-Updated s x found current [] e =
      rw (found, current, e)
        (written x _ found (sym ((str_eq_iff _ _).0 current)) refl refl (inl refl))
  update_stored-Updated s x found current (transient ∷ rest) e =
      rw (found, current, e) (refused _ refl (cc) refl)
  update_stored-Updated s x found current (permanent ∷ rest) e =
      rw (found, current, e) (refused _ refl (cc) refl)
  update_stored-Updated s x found current (timeout_after_write ∷ rest) e =
      rw (found, current, e)
        (written x _ found (sym ((str_eq_iff _ _).0 current)) refl refl (inr refl))

  pub update_invoice-Updated :
      (s : FakeState)
      → Updated print id token invoice s
          (update_invoice uuid print id token invoice s).1
          (update_invoice uuid print id token invoice s).0
  unfolding update_invoice ◌>>=◌
  update_invoice-Updated s = elim (Option-cases (find_stored id s.invoices)) [
    | inl nothing ↦ rw nothing (refused missing refl (cc) refl)
    | inr (x, found) ↦ elim (Bool-cases (str_eq (print x.sync_token) token)) [
      | inl current ↦ update_stored-Updated s x found current s.failures refl
      | inr other ↦ rw (found, other) (refused stale refl (cc) refl)
    ]
  ]

find_stored-id :
    (id : String) (xs : List StoredInvoice) (x : StoredInvoice)
    → find_stored id xs ≡ some x
    → x.external_id ≡ id
unfolding find_stored
find_stored-id id [] x e = cc
find_stored-id id (y ∷ ys) x e = elim (Bool-cases (str_eq y.external_id id)) [
  | inl same ↦
      let found : some y ≡ some x = rw same at e in
      let equal : y ≡ x = cc in
      ap (λ z. z.external_id) (sym equal) ∙ (str_eq_iff y.external_id id).0 same
  | inr other ↦ find_stored-id id ys x (rw other at e)
]

find_stored-set_stored :
    (new : StoredInvoice) (xs : List StoredInvoice)
    → find_stored new.external_id (set_stored new xs) ≡ some new
unfolding find_stored set_stored
find_stored-set_stored new [] = rw (str_eq_refl new.external_id)
find_stored-set_stored new (y ∷ ys) = elim (Bool-cases (str_eq y.external_id new.external_id)) [
  | inl same ↦ rw same (rw (str_eq_refl new.external_id))
  | inr other ↦ rw other (rw other (find_stored-set_stored new ys))
]

err_inj : {a b : SyncError} → ◌≡◌ {A = Result ExternalInvoiceState} (err a) (err b) → a ≡ b
err_inj e = cc

abbrev pub IsInjective : (ℕ → String) → Type 0
IsInjective print = (m n : ℕ) → print m ≡ print n → m ≡ n

update_invoice-stale :
    (uuid print : ℕ → String) (id token : String) (j : CanonicalInvoice) (s : FakeState)
    (x : StoredInvoice)
    → find_stored id s.invoices ≡ some x
    → print x.sync_token ≢ token
    → (update_invoice uuid print id token j s).0 ≡ err stale
unfolding update_invoice ◌>>=◌
update_invoice-stale uuid print id token j s x found ne =
    elim (Bool-cases (str_eq (print x.sync_token) token)) [
      | inl same ↦ absurd (ne ((str_eq_iff _ _).0 same))
      | inr other ↦ rw (found, other)
    ]

-- No update is lost: with version tokens that are printed apart, once an update is answered, or
-- its answer is lost after the write, the record holds the invoice that was sent, and any other
-- update from the same version is rejected as stale.
pub update_once :
    (uuid print : ℕ → String) (id token : String) (i j : CanonicalInvoice) (s s' : FakeState)
    (r : Result ExternalInvoiceState)
    → IsInjective print
    → update_invoice uuid print id token i s ≡ (r, s')
    → ((x : ExternalInvoiceState) × (r ≡ ok x)) ⊎ (r ≡ err (injected timeout_after_write))
    → ((x : StoredInvoice) × (find_stored id s'.invoices ≡ some x) × (x.invoice ≡ i))
      × ((update_invoice uuid print id token j s').0 ≡ err stale)
update_once uuid print id token i j s s' r injective e went = go (
    subst (λ p. Updated print id token i s p.1 p.0) e
      (update_invoice-Updated uuid print id token i s))
  where
    suc_ne : (n : ℕ) → n + 1 ≢ n
    suc_ne n h = omega (arith, h)

    go :
        Updated print id token i s s' r
        → ((x : StoredInvoice) × (find_stored id s'.invoices ≡ some x) × (x.invoice ≡ i))
          × ((update_invoice uuid print id token j s').0 ≡ err stale)
    go (refused f p ne same) = elim went [
      | inl (x, q) ↦ absurd (cc)
      | inr q ↦ absurd (ne (ap (λ z. z.kind) (err_inj (sym p ∙ q))))
    ]
    go (written x new found current made same answer) =
        let at : new.external_id ≡ id =
          ap (λ z. z.external_id) made ∙ find_stored-id id s.invoices x found in
        let stored : find_stored id s'.invoices ≡ some new =
          ap (find_stored id) same
          ∙ ap (λ k. find_stored k (set_stored new s.invoices)) (sym at)
          ∙ find_stored-set_stored new s.invoices in
        let fresh : print new.sync_token ≢ token = λ h.
          suc_ne x.sync_token
            (injective _ _ (sym (ap (λ z. print z.sync_token) made) ∙ h ∙ current)) in
        (
          (new, stored, ap (λ z. z.invoice) made),
          update_invoice-stale uuid print id token j s' new stored fresh,
        )
