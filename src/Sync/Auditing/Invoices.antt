-- ===== src/Sync/Auditing/Invoices.antt =====
-- The audit entries of the invoice events.
use qbo_invoice_sync.Common.{ℕ, ◌≡◌, refl, Option, none, some, String}
use qbo_invoice_sync.Audit.{AuditEntry}
use qbo_invoice_sync.Invoice.{CanonicalInvoice, ComparableInvoice}
use qbo_invoice_sync.Resolver.{Apply, Resolution, noop, apply}
use qbo_invoice_sync.Queue.{InboundEvent}
use qbo_invoice_sync.Ledger.{InternalInvoice}
use qbo_invoice_sync.Ledger.Editing.{Terminal}
use qbo_invoice_sync.Links.{EntityLink}
use qbo_invoice_sync.Provider.{ExternalInvoiceState}
use qbo_invoice_sync.Sync
use qbo_invoice_sync.Sync.{
  World, Env, write_audit, SkipAction, skip_entry, skip, reason, finish_ok, in_ledger, in_ledger_at,
  in_links, in_remote, read_clock,
}
use qbo_invoice_sync.Sync.Resolving.{
  Sides, mark, terminal_of, overwrite_external, write_external_state, write_external,
  write_internal_state, write_internal, apply_resolution,
}
use qbo_invoice_sync.Sync.Invoices.{
  from_internal, link_agreed, link_existing, create_external, handle_unlinked_internal,
  handle_unlinked_external, compare_linked, handle_linked, process_invoice_event, link_or_create,
  push_internal, link_or_import, import_external, pull_external, linked_to, by_link,
}
use qbo_invoice_sync.Sync.Auditing.{
  IsSilent, IsAudited, >>=-IsAudited, >>=-IsSilent, if-IsAudited, if-IsSilent, finish_ok-IsAudited,
  skip-IsAudited, in_ledger-IsSilent, in_links-IsSilent, in_remote-IsSilent,
}

module _ {P : Type 0} (env : Env P) (event : InboundEvent) where
  mark-IsSilent :
      (id : ℕ) (token : Option String) (version : ℕ) (snapshot : ComparableInvoice)
      → IsSilent (mark env id token version snapshot)
  unfolding mark in_links
  mark-IsSilent id token version snapshot = record { same = λ w. refl }

  overwrite_external-IsSilent :
      (state : ExternalInvoiceState) (t : Option Terminal) (invoice : CanonicalInvoice)
      → IsSilent (overwrite_external env state t invoice)
  overwrite_external-IsSilent state none invoice = in_remote-IsSilent env event _
  overwrite_external-IsSilent state (some t) invoice = in_remote-IsSilent env event _

  write_external-IsSilent :
      (link : EntityLink) (r : Apply) (invoice : CanonicalInvoice)
      (state : Option ExternalInvoiceState)
      → IsSilent (write_external env link r invoice state)
  unfolding write_external
  write_external-IsSilent link r invoice state =
      if-IsSilent r.write_external _ _ (go state) (record { same = λ w. refl })
    where
      go :
          (state : Option ExternalInvoiceState)
          → IsSilent (write_external_state env link r.merged invoice state)
      go none =
          >>=-IsSilent _ _ (in_remote-IsSilent env event _) (λ a.
            >>=-IsSilent _ _ (in_links-IsSilent env event _) (λ b. record { same = λ w. refl }))
      go (some state) =
          >>=-IsSilent _ _
            (overwrite_external-IsSilent state (terminal_of r.merged.lifecycle) invoice)
            (λ a. record { same = λ w. refl })

  write_internal-IsSilent :
      (internal : InternalInvoice) (r : Apply) (invoice : CanonicalInvoice)
      → IsSilent (write_internal env internal r invoice)
  unfolding write_internal
  write_internal-IsSilent internal r invoice =
      if-IsSilent r.write_internal _ _
        (>>=-IsSilent _ _ (go (terminal_of r.merged.lifecycle)) (λ a. record { same = λ w. refl }))
        (record { same = λ w. refl })
    where
      go : (t : Option Terminal) → IsSilent (write_internal_state env internal.id t invoice)
      go none = in_ledger-IsSilent env event _
      go (some t) = in_ledger-IsSilent env event _

  apply_resolution-IsAudited :
      (link : EntityLink) (r : Resolution) (sides : Sides)
      → IsAudited event (apply_resolution env event link r sides)
  unfolding apply_resolution
  apply_resolution-IsAudited link noop sides =
      >>=-IsAudited event _ _ (mark-IsSilent _ _ _ _)
        (λ _. skip-IsAudited env event Sync.SkipAction.noop _)
  apply_resolution-IsAudited link (apply r) sides =
      >>=-IsAudited event _ _ (record { same = λ w. refl })
        (λ now.
          >>=-IsAudited event _ _ (write_external-IsSilent link r _ sides.external_state)
            (λ external.
              >>=-IsAudited event _ _ (write_internal-IsSilent sides.internal r _) (λ version.
                >>=-IsAudited event _ _ (mark-IsSilent _ _ _ _)
                  (λ _. finish_ok-IsAudited env event _ refl))))

  link_agreed-IsAudited :
      (internal : InternalInvoice) (external_id token : String) (snapshot : ComparableInvoice)
      (entry : AuditEntry)
      → entry.inbound_event_id ≡ some event.id
      → IsAudited event (link_agreed env internal external_id token snapshot entry)
  unfolding link_agreed
  link_agreed-IsAudited internal external_id token snapshot entry same =
      >>=-IsAudited event _ _ (in_links-IsSilent env event _) (λ link.
        >>=-IsAudited event _ _ (mark-IsSilent _ _ _ _)
          (λ _. finish_ok-IsAudited env event entry same))

  link_existing-IsAudited :
      (internal : InternalInvoice) (external : ExternalInvoiceState) (invoice : CanonicalInvoice)
      → IsAudited event (link_existing env event internal external invoice)
  unfolding link_existing
  link_existing-IsAudited internal external invoice =
      if-IsAudited event _ _ _ (link_agreed-IsAudited internal _ _ _ _ refl) (
        >>=-IsAudited event _ _ (in_links-IsSilent env event _)
          (λ link. apply_resolution-IsAudited link _ _))

  create_external-IsAudited :
      (internal : InternalInvoice) → IsAudited event (create_external env event internal)
  create_external-IsAudited internal =
      >>=-IsAudited event _ _ (in_remote-IsSilent env event _)
        (λ created. link_agreed-IsAudited internal _ _ _ _ refl)

  handle_unlinked_internal-IsAudited : IsAudited event (handle_unlinked_internal env event)
  unfolding handle_unlinked_internal
  handle_unlinked_internal-IsAudited = >>=-IsAudited event _ _ (in_ledger-IsSilent env event _) push
    where
      choose :
          (internal : InternalInvoice) (state : Option ExternalInvoiceState)
          → IsAudited event (link_or_create env event internal state)
      choose internal none = create_external-IsAudited internal
      choose internal (some state) = with_invoice state.invoice
        where
          with_invoice :
              (o : Option CanonicalInvoice)
              → IsAudited event (elim o [
                | none ↦ create_external env event internal
                | some invoice ↦ link_existing env event internal state invoice
              ])
          with_invoice none = create_external-IsAudited internal
          with_invoice (some invoice) = link_existing-IsAudited internal state invoice

      push :
          (internal : Option InternalInvoice) → IsAudited event (push_internal env event internal)
      push none = skip-IsAudited env event Sync.SkipAction.stale _
      push (some internal) =
          if-IsAudited event _ _ _ (skip-IsAudited env event Sync.SkipAction.noop _)
            (>>=-IsAudited event _ _ (in_remote-IsSilent env event _) (choose internal))

  handle_unlinked_external-IsAudited : IsAudited event (handle_unlinked_external env event)
  unfolding handle_unlinked_external
  handle_unlinked_external-IsAudited = >>=-IsAudited event _ _ (in_remote-IsSilent env event _) pull
    where
      target :
          (external : ExternalInvoiceState) (invoice : CanonicalInvoice)
          (o : Option InternalInvoice)
          → IsAudited event (link_or_import env event external invoice o)
      target external invoice none =
          >>=-IsAudited event _ _ (in_ledger-IsSilent env event _)
            (λ created. link_agreed-IsAudited created _ _ _ _ refl)
      target external invoice (some internal) = link_existing-IsAudited internal external invoice

      import :
          (external : ExternalInvoiceState) (o : Option CanonicalInvoice)
          → IsAudited event (import_external env event external o)
      import external none = skip-IsAudited env event Sync.SkipAction.stale _
      import external (some invoice) =
          >>=-IsAudited event _ _ (in_ledger-IsSilent env event _) (target external invoice)

      pull : (o : Option ExternalInvoiceState) → IsAudited event (pull_external env event o)
      pull none = skip-IsAudited env event Sync.SkipAction.stale _
      pull (some external) = import external external.invoice

  compare_linked-IsAudited :
      (link : EntityLink) (internal : InternalInvoice) (state : Option ExternalInvoiceState)
      → IsAudited event (compare_linked env event link internal state)
  unfolding compare_linked
  compare_linked-IsAudited link internal state =
      if-IsAudited event _ _ _ (skip-IsAudited env event Sync.SkipAction.echo _)
        (apply_resolution-IsAudited link _ _)

  pub process_invoice_event-IsAudited : IsAudited event (process_invoice_event env event)
  unfolding process_invoice_event handle_linked
  process_invoice_event-IsAudited =
      >>=-IsAudited event _ _
        (if-IsSilent (from_internal event) _ _ (in_links-IsSilent env event _)
          (in_links-IsSilent env event _))
        link
    where
      linked :
          (k : EntityLink) (o : Option InternalInvoice) → IsAudited event (linked_to env event k o)
      linked k none = skip-IsAudited env event Sync.SkipAction.stale _
      linked k (some internal) =
          >>=-IsAudited event _ _ (in_remote-IsSilent env event _)
            (compare_linked-IsAudited k internal)

      link : (o : Option EntityLink) → IsAudited event (by_link env event o)
      link (some k) = >>=-IsAudited event _ _ (in_ledger-IsSilent env event _) (linked k)
      link none =
          if-IsAudited event (from_internal event) _ _ handle_unlinked_internal-IsAudited
            handle_unlinked_external-IsAudited
