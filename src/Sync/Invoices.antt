-- ===== src/Sync/Invoices.antt =====
-- The invoice events of src/services/syncService.ts: an invoice without a link is created on the
-- other side or linked to the record of the same number, a linked one is compared and resolved.
use qbo_invoice_sync.Common.{
  ℕ, Bool, true, false, Option, none, some, or_else, List, String, str_eq, text_eq, if◌then◌else◌,
}
use qbo_invoice_sync.Action.{Action, ◌>>=◌, ◌>>◌}
use qbo_invoice_sync.Json.{bool, str, obj, end, field}
use qbo_invoice_sync.Invoice.{
  Date, CanonicalInvoice, ComparableInvoice, to_comparable, snapshot_hash,
}
use qbo_invoice_sync.Invoice
use qbo_invoice_sync.Resolver.{resolve}
use qbo_invoice_sync.Audit.{AuditEntry, applied, linked_existing}
use qbo_invoice_sync.Queue.{InboundEvent}
use qbo_invoice_sync.Ledger.{InternalInvoice, is_dead, fetch_full}
use qbo_invoice_sync.Ledger.Editing.{get, get_by_doc_number}
use qbo_invoice_sync.Ledger.Applying.{to_canonical, apply_canonical}
use qbo_invoice_sync.Links.{
  EntityLink, EntityType, invoice_entity, NewLink, find_internal, find_external,
  find_by_internal_id, find_by_external_id, create_link,
}
use qbo_invoice_sync.Provider.{ExternalInvoiceState}
use qbo_invoice_sync.Worker.{SyncOutcome}
use qbo_invoice_sync.Sync.{
  World, Env, echo, stale, noop, skip, reason, finish_ok, in_ledger, in_links, in_remote,
}
use qbo_invoice_sync.Sync.Resolving.{mark, apply_resolution}

abbrev pub from_internal : InboundEvent → Bool
from_internal event = str_eq event.source "internal"

abbrev pub created_entry : InboundEvent → String → String → String → String → AuditEntry
created_entry event internal_id external_id direction doc_number = record {
  inbound_event_id = some event.id;
  entity_type = "invoice";
  internal_id = some internal_id;
  external_id = some external_id;
  action = applied;
  detail = some (
      obj (
        field "direction" (str direction)
          (field "operation" (str "create") (field "docNumber" (str doc_number) end))));
}

abbrev pub linked_entry : InboundEvent → InternalInvoice → String → AuditEntry
linked_entry event internal external_id = record {
  inbound_event_id = some event.id;
  entity_type = "invoice";
  internal_id = some internal.id;
  external_id = some external_id;
  action = linked_existing;
  detail =
      some
        (obj (field "docNumber" (str internal.doc_number) (field "statesMatched" (bool true) end)));
}

-- `{ ...(link.lastSyncedSnapshot ?? internalComparable), lifecycle: "deleted" }`
abbrev pub deleted_state : EntityLink → ComparableInvoice → ComparableInvoice
deleted_state link internal = record (or_else link.last_synced_snapshot internal) {
  lifecycle = Invoice.Lifecycle.deleted;
}

-- What is taken for the state of the external side.
abbrev pub external_comparable :
    EntityLink → ComparableInvoice → Option ExternalInvoiceState → ComparableInvoice
external_comparable link internal none = deleted_state link internal
external_comparable link internal (some state) = elim state.invoice [
  | none ↦ deleted_state link internal
  | some invoice ↦ to_comparable invoice
]

-- `link.lastSyncedHash !== null && eventSideHash === link.lastSyncedHash`
abbrev pub is_echo : List ℕ → Option (List ℕ) → Bool
is_echo hash none = false
is_echo hash (some last) = text_eq hash last

-- The time of a change that nobody can tell: the event's, or that of the last synchronisation.
abbrev pub unknown_time : InboundEvent → EntityLink → Date
unknown_time event link =
    if from_internal event then some (or_else link.last_synced_at 0) else event.occurred_at

abbrev pub external_time : InboundEvent → EntityLink → Option ExternalInvoiceState → Date
external_time event link none = unknown_time event link
external_time event link (some state) = elim state.invoice [
  | none ↦ unknown_time event link
  | some invoice ↦ invoice.source_updated_at
]

module _ {P : Type 0} (env : Env P) where
  abbrev pub hash_of : ComparableInvoice → List ℕ
  hash_of c = snapshot_hash env.sha256 c

  abbrev pub link_of :
      EntityType → String → String → String → Option ℕ → Option ComparableInvoice → NewLink
  link_of entity internal_id external_id token version snapshot = record {
    provider = env.provider.name;
    entity_type = entity;
    internal_id = internal_id;
    external_id = external_id;
    external_sync_token = some token;
    internal_version = version;
    last_synced_hash = elim snapshot [ none ↦ none | some c ↦ some (hash_of c) ];
    last_synced_snapshot = snapshot;
  }

  -- A link between two records that agree on `snapshot`, and the audit of `entry`.
  unfoldable pub link_agreed :
      InternalInvoice
      → String
      → String
      → ComparableInvoice
      → AuditEntry
      → Action (World P) SyncOutcome
  unfolding create_link mark
  link_agreed internal external_id token snapshot entry = do
    link ← in_links env (λ t. create_link t.db_now (
        link_of invoice_entity internal.id external_id token (some internal.version)
          (some snapshot)))
    mark env link.id (some token) internal.version snapshot
    finish_ok env entry

  -- Two records of one number that differ: the later write wins.
  abbrev pub link_differing :
      InboundEvent
      → InternalInvoice
      → ExternalInvoiceState
      → CanonicalInvoice
      → Action (World P) SyncOutcome
  link_differing event internal external invoice = do
    link ← in_links env (λ t. create_link t.db_now (
        link_of invoice_entity internal.id external.external_id external.sync_token
          (some internal.version) none))
    apply_resolution env event link
        (resolve (record {
          base = none;
          internal = to_comparable (to_canonical internal);
          external = to_comparable invoice;
          internal_updated_at = some internal.updated_at;
          external_updated_at = invoice.source_updated_at;
        }))
        (record {
          internal = internal;
          internal_canonical = to_canonical internal;
          external_state = some external;
        })

  unfoldable pub link_existing :
      InboundEvent
      → InternalInvoice
      → ExternalInvoiceState
      → CanonicalInvoice
      → Action (World P) SyncOutcome
  unfolding link_agreed create_link apply_resolution
  link_existing event internal external invoice =
      if text_eq (hash_of (to_comparable (to_canonical internal))) (hash_of (to_comparable invoice))
      then link_agreed internal external.external_id external.sync_token
          (to_comparable (to_canonical internal)) (linked_entry event internal external.external_id)
      else link_differing event internal external invoice

  abbrev pub create_external : InboundEvent → InternalInvoice → Action (World P) SyncOutcome
  create_external event internal = do
    created ← in_remote env (env.provider.create_invoice (to_canonical internal))
    link_agreed internal created.external_id created.sync_token
        (to_comparable (to_canonical internal))
        (created_entry event internal.id created.external_id "internal->external"
          internal.doc_number)

  -- By what the provider has under the number.
  abbrev pub link_or_create :
      InboundEvent → InternalInvoice → Option ExternalInvoiceState → Action (World P) SyncOutcome
  link_or_create event internal none = create_external event internal
  link_or_create event internal (some state) = elim state.invoice [
    | none ↦ create_external event internal
    | some invoice ↦ link_existing event internal state invoice
  ]

  abbrev pub push_internal : InboundEvent → Option InternalInvoice → Action (World P) SyncOutcome
  push_internal event none = skip env event stale (reason "internal invoice no longer exists")
  push_internal event (some internal) =
      if is_dead internal.status
      then skip env event noop (reason "unlinked invoice already terminal")
      else (do
        existing ← in_remote env (env.provider.find_invoice_by_doc_number internal.doc_number)
        link_or_create event internal existing)

  unfoldable pub handle_unlinked_internal : InboundEvent → Action (World P) SyncOutcome
  unfolding link_existing link_agreed skip fetch_full
  handle_unlinked_internal event = do
    internal ← in_ledger env (λ t. get event.entity_id)
    push_internal event internal

  abbrev pub create_internal :
      InboundEvent → ExternalInvoiceState → CanonicalInvoice → Action (World P) SyncOutcome
  create_internal event external invoice = do
    created ← in_ledger env (λ t. apply_canonical t invoice none)
    link_agreed created external.external_id external.sync_token (to_comparable invoice) (
        created_entry event created.id external.external_id "external->internal" invoice.doc_number)

  abbrev pub link_or_import :
      InboundEvent
      → ExternalInvoiceState
      → CanonicalInvoice
      → Option InternalInvoice
      → Action (World P) SyncOutcome
  link_or_import event external invoice none = create_internal event external invoice
  link_or_import event external invoice (some internal) =
      link_existing event internal external invoice

  abbrev pub gone : InboundEvent → Action (World P) SyncOutcome
  gone event = skip env event stale (reason "external invoice deleted before we ever linked it")

  abbrev pub import_external :
      InboundEvent → ExternalInvoiceState → Option CanonicalInvoice → Action (World P) SyncOutcome
  import_external event external none = gone event
  import_external event external (some invoice) = do
    internal ← in_ledger env (λ t. get_by_doc_number invoice.doc_number)
    link_or_import event external invoice internal

  abbrev pub pull_external :
      InboundEvent → Option ExternalInvoiceState → Action (World P) SyncOutcome
  pull_external event none = gone event
  pull_external event (some external) = import_external event external external.invoice

  unfoldable pub handle_unlinked_external : InboundEvent → Action (World P) SyncOutcome
  unfolding link_existing link_agreed skip apply_canonical fetch_full
  handle_unlinked_external event = do
    external ← in_remote env (env.provider.get_invoice event.entity_id)
    pull_external event external

  -- With both sides read.
  unfoldable pub compare_linked :
      InboundEvent
      → EntityLink
      → InternalInvoice
      → Option ExternalInvoiceState
      → Action (World P) SyncOutcome
  unfolding skip apply_resolution
  compare_linked event link internal external_state =
      let ours = to_comparable (to_canonical internal) in
      let theirs = external_comparable link ours external_state in
      if is_echo (hash_of (if from_internal event then ours else theirs)) link.last_synced_hash
      then skip env event echo (
          field "internalId" (str link.internal_id) (
            field "externalId" (str link.external_id)
              (reason "event-side state equals last synced snapshot (own write or stale event)")))
      else apply_resolution env event link
          (resolve (record {
            base = link.last_synced_snapshot;
            internal = ours;
            external = theirs;
            internal_updated_at = some internal.updated_at;
            external_updated_at = external_time event link external_state;
          }))
          (record {
            internal = internal;
            internal_canonical = to_canonical internal;
            external_state = external_state;
          })

  abbrev pub linked_to :
      InboundEvent → EntityLink → Option InternalInvoice → Action (World P) SyncOutcome
  linked_to event link none = skip env event stale (reason "internal invoice missing despite link")
  linked_to event link (some internal) = do
    external_state ← in_remote env (env.provider.get_invoice link.external_id)
    compare_linked event link internal external_state

  unfoldable pub handle_linked : InboundEvent → EntityLink → Action (World P) SyncOutcome
  unfolding compare_linked skip fetch_full
  handle_linked event link = do
    internal ← in_ledger env (λ t. get link.internal_id)
    linked_to event link internal

  abbrev pub by_link : InboundEvent → Option EntityLink → Action (World P) SyncOutcome
  by_link event (some link) = handle_linked event link
  by_link event none =
      if from_internal event then handle_unlinked_internal event else handle_unlinked_external event

  unfoldable pub process_invoice_event : InboundEvent → Action (World P) SyncOutcome
  unfolding handle_linked handle_unlinked_internal handle_unlinked_external find_internal
      find_external
  process_invoice_event event = do
    link ←
        (if from_internal event
          then in_links env
              (λ t. find_by_internal_id env.provider.name invoice_entity event.entity_id)
          else in_links env
              (λ t. find_by_external_id env.provider.name invoice_entity event.entity_id))
    by_link event link
