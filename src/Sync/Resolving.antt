-- ===== src/Sync/Resolving.antt =====
-- `applyResolution` of src/services/syncService.ts: the external side is written first, then the
-- internal one, then the link is advanced, and the decision is audited.
use qbo_invoice_sync.Common.{ℕ, Option, none, some, map, String, if◌then◌else◌}
use qbo_invoice_sync.Action.{Action, pure, ◌>>=◌, ◌>>◌}
use qbo_invoice_sync.Json.{bool, str, obj, Fields, end, field}
use qbo_invoice_sync.Invoice.{
  InvoiceStatus, open_status, CanonicalInvoice, Lifecycle, active, ComparableInvoice, copy_line,
  to_comparable, comparable_json, snapshot_hash,
}
use qbo_invoice_sync.Invoice
use qbo_invoice_sync.Resolver.{
  Decision, one_sided_internal, one_sided_external, lww_internal, lww_external, Apply, Resolution,
  is_lww,
}
use qbo_invoice_sync.Resolver
use qbo_invoice_sync.Audit.{AuditEntry, applied, conflict_lww}
use qbo_invoice_sync.Queue.{InboundEvent}
use qbo_invoice_sync.Ledger.{InternalInvoice}
use qbo_invoice_sync.Ledger.Editing.{Terminal, to_voided, to_deleted, set_lifecycle}
use qbo_invoice_sync.Ledger.Applying.{apply_canonical}
use qbo_invoice_sync.Links.{EntityLink, mark_synced, update_external_id}
use qbo_invoice_sync.Provider.{ExternalInvoiceState}
use qbo_invoice_sync.Worker.{SyncOutcome}
use qbo_invoice_sync.Sync.{
  World, Env, noop, skip, reason, read_clock, finish_ok, in_ledger, in_links, in_remote,
}

-- Both sides as they were read.
pub record Sides : Type 0 where
  pub internal : InternalInvoice
  pub internal_canonical : CanonicalInvoice
  pub external_state : Option ExternalInvoiceState

abbrev pub terminal_of : Lifecycle → Option Terminal
terminal_of active = none
terminal_of Invoice.Lifecycle.voided = some to_voided
terminal_of Invoice.Lifecycle.deleted = some to_deleted

abbrev pub status_of : Lifecycle → InvoiceStatus
status_of active = open_status
status_of Invoice.Lifecycle.voided = Invoice.InvoiceStatus.voided
status_of Invoice.Lifecycle.deleted = Invoice.InvoiceStatus.deleted

-- The invoice that is written, at `now` of the program's clock.
abbrev pub merged_invoice : ℕ → ComparableInvoice → CanonicalInvoice
merged_invoice now merged = record {
  doc_number = merged.doc_number;
  customer_name = merged.customer_name;
  status = status_of merged.lifecycle;
  currency = merged.currency;
  notes = merged.notes;
  lines = map copy_line merged.lines;
  total_cents = merged.total_cents;
  balance_cents = merged.total_cents;
  source_updated_at = some now;
}

-- `ctx.externalState?.syncToken ?? link.externalSyncToken`
abbrev pub known_token : EntityLink → Option ExternalInvoiceState → Option String
known_token link none = link.external_sync_token
known_token link (some x) = some x.sync_token

abbrev pub decision_text : Decision → String
decision_text one_sided_internal = "one_sided_internal"
decision_text one_sided_external = "one_sided_external"
decision_text lww_internal = "lww_internal"
decision_text lww_external = "lww_external"

-- `...(overwritten ? { overwritten } : {})`
abbrev pub overwritten_fields : Option ComparableInvoice → Fields
overwritten_fields none = end
overwritten_fields (some c) = field "overwritten" (comparable_json c) end

abbrev pub resolution_entry : InboundEvent → EntityLink → String → Apply → AuditEntry
resolution_entry event link external_id r = record {
  inbound_event_id = some event.id;
  entity_type = "invoice";
  internal_id = some link.internal_id;
  external_id = some external_id;
  action = if is_lww r.decision then conflict_lww else applied;
  detail = some (
      obj (
        field "decision" (str (decision_text r.decision)) (
          field "wroteInternal" (bool r.write_internal)
            (field "wroteExternal" (bool r.write_external) (overwritten_fields r.overwritten)))));
}

module _ {P : Type 0} (env : Env P) where
  -- `markSynced` with a snapshot and its hash
  unfoldable pub mark : ℕ → Option String → ℕ → ComparableInvoice → Action (World P) Unit
  unfolding mark_synced
  mark link_id token version snapshot = in_links env (λ t. mark_synced t.now link_id (record {
    external_sync_token = token;
    internal_version = some version;
    hash = snapshot_hash env.sha256 snapshot;
    snapshot = snapshot;
  }))

  -- The record that the provider has, voided where the state that wins is dead.
  abbrev pub overwrite_external :
      ExternalInvoiceState
      → Option Terminal
      → CanonicalInvoice
      → Action (World P) ExternalInvoiceState
  overwrite_external state (some terminal) invoice =
      in_remote env (env.provider.void_invoice state.external_id state.sync_token)
  overwrite_external state none invoice =
      in_remote env (env.provider.update_invoice state.external_id state.sync_token invoice)

  -- The external id and the token that the link has then.
  abbrev pub write_external_state :
      EntityLink
      → ComparableInvoice
      → CanonicalInvoice
      → Option ExternalInvoiceState
      → Action (World P) (String × Option String)
  write_external_state link merged invoice none = do
    created ← in_remote env (env.provider.create_invoice invoice)
    in_links env (λ t. update_external_id t.now link.id created.external_id)
    pure (created.external_id, some created.sync_token)
  write_external_state link merged invoice (some state) = do
    written ← overwrite_external state (terminal_of merged.lifecycle) invoice
    pure (link.external_id, some written.sync_token)

  unfoldable pub write_external :
      EntityLink
      → Apply
      → CanonicalInvoice
      → Option ExternalInvoiceState
      → Action (World P) (String × Option String)
  unfolding update_external_id
  write_external link r invoice state =
      if r.write_external
      then write_external_state link r.merged invoice state
      else pure (link.external_id, known_token link state)

  abbrev pub write_internal_state :
      String → Option Terminal → CanonicalInvoice → Action (World P) InternalInvoice
  write_internal_state id (some terminal) invoice = in_ledger env (λ t. set_lifecycle t id terminal)
  write_internal_state id none invoice = in_ledger env (λ t. apply_canonical t invoice (some id))

  -- The version that the internal invoice has then.
  unfoldable pub write_internal : InternalInvoice → Apply → CanonicalInvoice → Action (World P) ℕ
  unfolding set_lifecycle apply_canonical
  write_internal internal r invoice =
      if r.write_internal
      then (do
        updated ← write_internal_state internal.id (terminal_of r.merged.lifecycle) invoice
        pure updated.version)
      else pure internal.version

  unfoldable pub apply_resolution :
      InboundEvent → EntityLink → Resolution → Sides → Action (World P) SyncOutcome
  unfolding mark write_external write_internal skip
  apply_resolution event link Resolver.Resolution.noop sides = do
    mark link.id (known_token link sides.external_state) sides.internal.version
        (to_comparable sides.internal_canonical)
    skip env event noop (reason "sides already convergent")
  apply_resolution event link (Resolver.Resolution.apply r) sides = do
    now ← read_clock env
    external ← write_external link r (merged_invoice now r.merged) sides.external_state
    version ← write_internal sides.internal r (merged_invoice now r.merged)
    mark link.id external.1 version r.merged
    finish_ok env (resolution_entry event link external.0 r)
