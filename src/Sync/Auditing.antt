-- ===== src/Sync/Auditing.antt =====
-- The audit entries of the pipeline: what an event leaves in the log, and how that composes.
pub mod Invoices
pub mod Payments
pub mod Events
use qbo_invoice_sync.Common.{
  ℕ, suc, ◌+◌, ◌≡◌, refl, sym, ap, ◌∙◌, subst, inl, inr, Bool, true, false, Option, none, some,
  List, [], ◌∷◌, String, str_eq, Bool-cases, if◌then◌else◌,
}
use qbo_invoice_sync.Errors.{SyncError, Result, ok, err}
use qbo_invoice_sync.Action.{Action, pure, raise, gets, or_raise, continue, ◌>>=◌, ◌>>◌}
use qbo_invoice_sync.Json.{Fields, end, field}
use qbo_invoice_sync.Audit.{AuditAction, AuditEntry, AuditLog, record_entry}
use qbo_invoice_sync.Invoice.{
  CanonicalInvoice, ComparableInvoice, CanonicalPayment, PaymentAllocation, to_comparable,
}
use qbo_invoice_sync.Resolver.{Apply, Resolution, noop, apply, resolve}
use qbo_invoice_sync.Queue.{InboundEvent}
use qbo_invoice_sync.Ledger.{InternalInvoice, Ledger, Fresh, PaymentRow, is_dead}
use qbo_invoice_sync.Ledger.Editing.{Terminal}
use qbo_invoice_sync.Links.{EntityLink, Links}
use qbo_invoice_sync.Provider.{AccountingProvider, ExternalInvoiceState, ExternalPaymentState}
use qbo_invoice_sync.Worker.{SyncOutcome}
use qbo_invoice_sync.Sync
use qbo_invoice_sync.Sync.{
  World, Env, write_audit, SkipAction, skip_entry, skip, reason, finish_ok, in_ledger, in_ledger_at,
  in_links, in_remote, read_clock,
}
use qbo_invoice_sync.Sync.Resolving.{
  Sides, mark, terminal_of, overwrite_external, write_external_state, write_external,
  write_internal_state, write_internal, apply_resolution, merged_invoice,
}
use qbo_invoice_sync.Sync.Invoices.{
  from_internal, link_agreed, link_existing, link_differing, create_external,
  handle_unlinked_internal, handle_unlinked_external, compare_linked, handle_linked,
  process_invoice_event, hash_of, external_comparable, is_echo, link_or_create, push_internal,
  link_or_import, import_external, pull_external, linked_to, by_link,
}
use qbo_invoice_sync.Sync.Payments.{
  Target, AppliedAllocation, found_or_created, copy_if_invoice, copy_if_found, copy_if_new,
  find_targets, apply_target, apply_targets, record_applied, payment_gone, apply_if_found,
  apply_if_new, copy_payment, process_internal_payment, process_external_payment,
  process_payment_event, apply_payment,
}
use qbo_invoice_sync.Sync.Pipeline.{process_event}

-- What an event leaves in the audit log, by how it ended.
abbrev pub Audited : {P : Type 0} → InboundEvent → AuditLog → Result SyncOutcome × World P → Type 0
Audited event before (ok o, w) =
    (now : ℕ) × (entry : AuditEntry) × (w.audit ≡ record_entry now entry before)
    × (entry.action ≡ o.action)
    × (entry.inbound_event_id ≡ some event.id)
Audited event before (err e, w) = w.audit ≡ before

-- The action writes nothing to the audit log.
pub record IsSilent {P A : Type 0} (m : Action (World P) A) : Type 0 where
  pub same : (w : World P) → (m w).1.audit ≡ w.audit

pub record IsAudited {P : Type 0} (event : InboundEvent) (m : Action (World P) SyncOutcome)
    : Type 0 where
  pub audited : (w : World P) → Audited event w.audit (m w)

module _ {P : Type 0} where
  continue-IsAudited :
      {A : Type 0} (event : InboundEvent) (before : AuditLog) (f : A → Action (World P) SyncOutcome)
      (r : Result A × World P)
      → r.1.audit ≡ before
      → ((a : A) → IsAudited event (f a))
      → Audited event before (continue f r)
  continue-IsAudited event before f (ok a, w) s h =
      subst (λ b. Audited event b (f a w)) s ((h a).audited w)
  continue-IsAudited event before f (err e, w) s h = s

  pub >>=-IsAudited :
      {A : Type 0} (event : InboundEvent) (m : Action (World P) A)
      (f : A → Action (World P) SyncOutcome)
      → IsSilent m
      → ((a : A) → IsAudited event (f a))
      → IsAudited event (m >>= f)
  unfolding ◌>>=◌
  >>=-IsAudited event m f s h = record {
    audited = λ w. continue-IsAudited event w.audit f (m w) (s.same w) h;
  }

  continue-IsSilent :
      {A B : Type 0} (before : AuditLog) (f : A → Action (World P) B) (r : Result A × World P)
      → r.1.audit ≡ before
      → ((a : A) → IsSilent (f a))
      → (continue f r).1.audit ≡ before
  continue-IsSilent before f (ok a, w) s h = (h a).same w ∙ s
  continue-IsSilent before f (err e, w) s h = s

  pub >>=-IsSilent :
      {A B : Type 0} (m : Action (World P) A) (f : A → Action (World P) B)
      → IsSilent m
      → ((a : A) → IsSilent (f a))
      → IsSilent (m >>= f)
  unfolding ◌>>=◌
  >>=-IsSilent m f s h = record { same = λ w. continue-IsSilent w.audit f (m w) (s.same w) h }

  pub if-IsAudited :
      (event : InboundEvent) (b : Bool) (m n : Action (World P) SyncOutcome)
      → IsAudited event m
      → IsAudited event n
      → IsAudited event (if b then m else n)
  if-IsAudited event true m n h k = h
  if-IsAudited event false m n h k = k

  pub if-IsSilent :
      {A : Type 0} (b : Bool) (m n : Action (World P) A)
      → IsSilent m
      → IsSilent n
      → IsSilent (if b then m else n)
  if-IsSilent true m n h k = h
  if-IsSilent false m n h k = k

module _ {P : Type 0} (env : Env P) (event : InboundEvent) where
  pub finish_ok-IsAudited :
      (entry : AuditEntry)
      → entry.inbound_event_id ≡ some event.id
      → IsAudited event (finish_ok env entry)
  unfolding write_audit ◌>>=◌
  finish_ok-IsAudited entry same = record {
    audited = λ w. ((env.fresh w.ops).db_now, entry, refl, refl, same);
  }

  pub skip-IsAudited :
      (action : SkipAction) (detail : Fields) → IsAudited event (skip env event action detail)
  unfolding skip ◌>>=◌
  skip-IsAudited action detail = record {
    audited = λ w. ((env.fresh w.ops).db_now, skip_entry event action detail, refl, refl, refl);
  }

  pub in_ledger-IsSilent : {A : Type 0} (f : Fresh → Action Ledger A) → IsSilent (in_ledger env f)
  unfolding in_ledger
  in_ledger-IsSilent f = record { same = λ w. refl }

  pub in_links-IsSilent : {A : Type 0} (f : Fresh → Action Links A) → IsSilent (in_links env f)
  unfolding in_links
  in_links-IsSilent f = record { same = λ w. refl }

  pub in_remote-IsSilent : {A : Type 0} (f : Action P A) → IsSilent (in_remote env f)
  unfolding in_remote
  in_remote-IsSilent f = record { same = λ w. refl }
