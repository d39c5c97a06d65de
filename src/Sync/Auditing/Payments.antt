-- ===== src/Sync/Auditing/Payments.antt =====
-- The audit entries of the payment events.
use qbo_invoice_sync.Common.{refl, Option, none, some, List, [], ◌∷◌, String}
use qbo_invoice_sync.Errors.{SyncError}
use qbo_invoice_sync.Action.{or_raise}
use qbo_invoice_sync.Invoice.{CanonicalPayment, PaymentAllocation}
use qbo_invoice_sync.Queue.{InboundEvent}
use qbo_invoice_sync.Ledger.{InternalInvoice, PaymentRow}
use qbo_invoice_sync.Links.{EntityLink}
use qbo_invoice_sync.Provider.{ExternalPaymentState}
use qbo_invoice_sync.Sync
use qbo_invoice_sync.Sync.{
  World, Env, write_audit, SkipAction, skip_entry, skip, reason, finish_ok, in_ledger, in_ledger_at,
  in_links, in_remote, read_clock,
}
use qbo_invoice_sync.Sync.Payments.{
  Target, AppliedAllocation, found_or_created, copy_if_invoice, copy_if_found, copy_if_new,
  find_targets, apply_target, apply_targets, record_applied, payment_gone, apply_if_found,
  apply_if_new, copy_payment, process_internal_payment, process_external_payment, apply_payment,
}
use qbo_invoice_sync.Sync.Auditing.{
  IsSilent, IsAudited, >>=-IsAudited, >>=-IsSilent, finish_ok-IsAudited, skip-IsAudited,
  in_ledger-IsSilent, in_links-IsSilent, in_remote-IsSilent,
}

module _ {P : Type 0} (env : Env P) (event : InboundEvent) where
  copy_payment-IsAudited :
      (payment : PaymentRow) (invoice : InternalInvoice) (o : Option EntityLink)
      → IsAudited event (copy_payment env event payment invoice o)
  unfolding copy_payment
  copy_payment-IsAudited payment invoice none = record { audited = λ w. refl }
  copy_payment-IsAudited payment invoice (some link) =
      >>=-IsAudited event _ _ (in_remote-IsSilent env event _) (λ existing.
        >>=-IsAudited event _ _ (found _ _ existing) (λ x.
          >>=-IsAudited event _ _ (in_links-IsSilent env event _)
            (λ _. finish_ok-IsAudited env event _ refl)))
    where
      found :
          (p : CanonicalPayment) (id : String) (o : Option ExternalPaymentState)
          → IsSilent (found_or_created env p id o)
      found p id (some external) = record { same = λ w. refl }
      found p id none =
          >>=-IsSilent _ _ (in_remote-IsSilent env event _) (λ a. record { same = λ w. refl })

  pub process_internal_payment-IsAudited : IsAudited event (process_internal_payment env event)
  unfolding process_internal_payment
  process_internal_payment-IsAudited = >>=-IsAudited event _ _ (in_links-IsSilent env event _) new
    where
      invoice :
          (p : PaymentRow) (o : Option InternalInvoice)
          → IsAudited event (copy_if_invoice env event p o)
      invoice p none = skip-IsAudited env event Sync.SkipAction.stale _
      invoice p (some i) =
          >>=-IsAudited event _ _ (in_links-IsSilent env event _) (copy_payment-IsAudited p i)

      payment : (o : Option PaymentRow) → IsAudited event (copy_if_found env event o)
      payment none = skip-IsAudited env event Sync.SkipAction.stale _
      payment (some p) = >>=-IsAudited event _ _ (in_ledger-IsSilent env event _) (invoice p)

      new : (o : Option EntityLink) → IsAudited event (copy_if_new env event o)
      new (some link) = skip-IsAudited env event Sync.SkipAction.duplicate _
      new none = >>=-IsAudited event _ _ (in_ledger-IsSilent env event _) payment

  or_raise-IsSilent :
      {A : Type 0} (e : SyncError) (o : Option A) → IsSilent (or_raise {S = World P} e o)
  or_raise-IsSilent e none = record { same = λ w. refl }
  or_raise-IsSilent e (some a) = record { same = λ w. refl }

  find_targets-IsSilent :
      (allocations : List PaymentAllocation) → IsSilent (find_targets env allocations)
  unfolding find_targets
  find_targets-IsSilent [] = record { same = λ w. refl }
  find_targets-IsSilent (a ∷ rest) = >>=-IsSilent _ _ (in_ledger-IsSilent env event _) (λ found.
      >>=-IsSilent _ _ (or_raise-IsSilent _ found) (λ invoice.
        >>=-IsSilent _ _ (find_targets-IsSilent rest) (λ targets. record { same = λ w. refl })))

  apply_targets-IsSilent :
      (id : String) (p : CanonicalPayment) (targets : List Target)
      → IsSilent (apply_targets env id p targets)
  unfolding apply_targets apply_target
  apply_targets-IsSilent id p [] = record { same = λ w. refl }
  apply_targets-IsSilent id p (t ∷ rest) =
      >>=-IsSilent _ _
        (>>=-IsSilent _ _ (in_ledger-IsSilent env event _) (λ result. record { same = λ w. refl }))
        (λ first.
          >>=-IsSilent _ _ (apply_targets-IsSilent id p rest)
            (λ others. record { same = λ w. refl }))

  apply_payment-IsAudited :
      (external : ExternalPaymentState) (p : CanonicalPayment)
      (allocations : List PaymentAllocation)
      → IsAudited event (apply_payment env event external p allocations)
  unfolding apply_payment
  apply_payment-IsAudited external p [] = skip-IsAudited env event Sync.SkipAction.noop _
  apply_payment-IsAudited external p (a ∷ rest) =
      >>=-IsAudited event _ _ (find_targets-IsSilent (a ∷ rest))
        (λ targets. >>=-IsAudited event _ _ (apply_targets-IsSilent _ p targets) applied)
    where
      applied :
          (done : List AppliedAllocation)
          → IsAudited event (record_applied env event external p done)
      applied [] = record { audited = λ w. refl }
      applied (first ∷ others) =
          >>=-IsAudited event _ _ (in_links-IsSilent env event _)
            (λ _. finish_ok-IsAudited env event _ refl)

  pub process_external_payment-IsAudited : IsAudited event (process_external_payment env event)
  unfolding process_external_payment
  process_external_payment-IsAudited = >>=-IsAudited event _ _ (in_links-IsSilent env event _) new
    where
      found : (o : Option ExternalPaymentState) → IsAudited event (apply_if_found env event o)
      found none = skip-IsAudited env event Sync.SkipAction.stale _
      found (some external) = payment external.payment
        where
          payment :
              (o : Option CanonicalPayment)
              → IsAudited event (elim o [
                | none ↦ payment_gone env event
                | some p ↦ apply_payment env event external p p.allocations
              ])
          payment none = skip-IsAudited env event Sync.SkipAction.stale _
          payment (some p) = apply_payment-IsAudited external p p.allocations

      new : (o : Option EntityLink) → IsAudited event (apply_if_new env event o)
      new (some link) = skip-IsAudited env event Sync.SkipAction.echo _
      new none = >>=-IsAudited event _ _ (in_remote-IsSilent env event _) found
