-- ===== src/Links.antt =====
-- The links between the records of the two systems: src/models/repositories/entityLinkRepository.ts
-- over the table `entity_links`.
use qbo_invoice_sync.Common.{
  ℕ, ◌+◌, Bool, true, false, not, ◌&&◌, ◌||◌, Option, none, some, is_some, List, [], ◌∷◌, ◌++◌,
  take, String, str_eq, leb, ◌==◌, if◌then◌else◌,
}
use qbo_invoice_sync.Errors.{SyncError, plain_error, ok, err}
use qbo_invoice_sync.Action.{Action}
use qbo_invoice_sync.Invoice.{ComparableInvoice}

-- What a link is about; the rest of the key is the name of the provider.
pub data EntityType : Type 0 where
  invoice_entity payment_entity : EntityType

abbrev pub entity_eq : EntityType → EntityType → Bool
entity_eq invoice_entity invoice_entity = true
entity_eq payment_entity payment_entity = true
entity_eq _ _ = false

-- `EntityLink`, with the columns that only the table has.
pub record EntityLink : Type 0 where
  pub id : ℕ
  pub provider : String
  pub entity_type : EntityType
  pub internal_id : String
  pub external_id : String
  pub external_sync_token : Option String
  pub internal_version : Option ℕ
  pub last_synced_hash : Option (List ℕ)
  pub last_synced_snapshot : Option ComparableInvoice
  pub last_synced_at : Option ℕ
  pub updated_at : ℕ

pub record NewLink : Type 0 where
  pub provider : String
  pub entity_type : EntityType
  pub internal_id : String
  pub external_id : String
  pub external_sync_token : Option String
  pub internal_version : Option ℕ
  pub last_synced_hash : Option (List ℕ)
  pub last_synced_snapshot : Option ComparableInvoice

pub record MarkSyncedInput : Type 0 where
  pub external_sync_token : Option String
  pub internal_version : Option ℕ
  pub hash : List ℕ
  pub snapshot : ComparableInvoice

pub record Links : Type 0 where
  pub rows : List EntityLink
  pub next_id : ℕ

abbrev pub has_entity : String → EntityType → EntityLink → Bool
has_entity provider entity_type k =
    str_eq k.provider provider && entity_eq k.entity_type entity_type

unfoldable pub find_internal : String → EntityType → String → List EntityLink → Option EntityLink
find_internal provider entity_type id [] = none
find_internal provider entity_type id (k ∷ ks) =
    if has_entity provider entity_type k && str_eq k.internal_id id
    then some k
    else find_internal provider entity_type id ks

unfoldable pub find_external : String → EntityType → String → List EntityLink → Option EntityLink
find_external provider entity_type id [] = none
find_external provider entity_type id (k ∷ ks) =
    if has_entity provider entity_type k && str_eq k.external_id id
    then some k
    else find_external provider entity_type id ks

abbrev pub find_by_internal_id : String → EntityType → String → Action Links (Option EntityLink)
find_by_internal_id provider entity_type id s =
    (ok (find_internal provider entity_type id s.rows), s)

abbrev pub find_by_external_id : String → EntityType → String → Action Links (Option EntityLink)
find_by_external_id provider entity_type id s =
    (ok (find_external provider entity_type id s.rows), s)

abbrev pub not_unique : SyncError
not_unique = record { kind = plain_error; message = "entity link is not unique" }

-- The two unique indexes.
unfoldable pub link_taken : NewLink → List EntityLink → Bool
unfolding find_internal find_external
link_taken k ks =
    is_some (find_internal k.provider k.entity_type k.internal_id ks)
    || is_some (find_external k.provider k.entity_type k.external_id ks)

abbrev pub link_row : ℕ → ℕ → NewLink → EntityLink
link_row id db_now k = record {
  id = id;
  provider = k.provider;
  entity_type = k.entity_type;
  internal_id = k.internal_id;
  external_id = k.external_id;
  external_sync_token = k.external_sync_token;
  internal_version = k.internal_version;
  last_synced_hash = k.last_synced_hash;
  last_synced_snapshot = k.last_synced_snapshot;
  last_synced_at = none;
  updated_at = db_now;
}

-- The callers give no `lastSyncedAt`. The sequence advances on a failure too.
unfoldable pub create_link : ℕ → NewLink → Action Links EntityLink
unfolding link_taken
create_link db_now k s =
    if link_taken k s.rows then (err not_unique, record s { next_id = s.next_id + 1 }) else (
      ok (link_row s.next_id db_now k),
      record { rows = s.rows ++ (link_row s.next_id db_now k ∷ []); next_id = s.next_id + 1 },
    )

unfoldable pub update_links : ℕ → (EntityLink → EntityLink) → List EntityLink → List EntityLink
update_links id f [] = []
update_links id f (k ∷ ks) = (if k.id == id then f k else k) ∷ update_links id f ks

abbrev pub synced_row : ℕ → MarkSyncedInput → EntityLink → EntityLink
synced_row now input k = record k {
  external_sync_token = input.external_sync_token;
  internal_version = input.internal_version;
  last_synced_hash = some input.hash;
  last_synced_snapshot = some input.snapshot;
  last_synced_at = some now;
  updated_at = now;
}

unfoldable pub mark_synced : ℕ → ℕ → MarkSyncedInput → Action Links Unit
unfolding update_links
mark_synced now id input s =
    (ok tt, record s { rows = update_links id (synced_row now input) s.rows })

abbrev pub repointed : ℕ → String → EntityLink → EntityLink
repointed now external_id k = record k { external_id = external_id; updated_at = now }

-- The unique index on the external ids, for the rows other than the one that is changed
unfoldable pub external_clash : ℕ → String → EntityType → String → List EntityLink → Bool
external_clash id provider entity_type external_id [] = false
external_clash id provider entity_type external_id (k ∷ ks) =
    (not (k.id == id) && (has_entity provider entity_type k && str_eq k.external_id external_id))
    || external_clash id provider entity_type external_id ks

-- The link of that id.
unfoldable pub find_link : ℕ → List EntityLink → Option EntityLink
find_link id [] = none
find_link id (k ∷ ks) = if k.id == id then some k else find_link id ks

abbrev pub repoint_clash : ℕ → String → List EntityLink → Option EntityLink → Bool
repoint_clash id external_id ks none = false
repoint_clash id external_id ks (some k) = external_clash id k.provider k.entity_type external_id ks

unfoldable pub update_external_id : ℕ → ℕ → String → Action Links Unit
unfolding update_links external_clash find_link
update_external_id now id external_id s =
    if repoint_clash id external_id s.rows (find_link id s.rows)
    then (err not_unique, s)
    else (ok tt, record s { rows = update_links id (repointed now external_id) s.rows })

-- `ORDER BY updated_at DESC LIMIT …`
abbrev pub insert_latest : EntityLink → List EntityLink → List EntityLink
insert_latest k [] = k ∷ []
insert_latest k (j ∷ js) =
    if leb j.updated_at k.updated_at then k ∷ j ∷ js else j ∷ insert_latest k js

abbrev pub latest_first : List EntityLink → List EntityLink
latest_first [] = []
latest_first (k ∷ ks) = insert_latest k (latest_first ks)

unfoldable pub list_all : ℕ → Links → List EntityLink
list_all limit s = take limit (latest_first s.rows)
