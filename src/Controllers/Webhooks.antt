-- ===== src/Controllers/Webhooks.antt =====
-- src/controllers/webhookController.ts: notifications of both sides are checked, parsed and
-- published. zod's schemas are functions from JSON to the value; a JSON number is an integer here.
pub mod Keys
pub mod Deliveries
pub mod Changes
mod Tests
use Prim.Native.String.{◌++◌ as text_append}
use qbo_invoice_sync.Common.{
  ℕ, suc, ◌+◌, ◌-◌, Bool, true, false, not, Option, none, some, is_some, List, [], ◌∷◌, codes,
  String, str_eq, length, if◌then◌else◌,
}
use qbo_invoice_sync.Common.Int.{ℤ}
use qbo_invoice_sync.Errors.{SyncError, plain_error, Result, ok, err}
use qbo_invoice_sync.Action.{Action, pure, ◌>>=◌}
use qbo_invoice_sync.Json.{Json, num, str, obj, Fields, end, field}
use qbo_invoice_sync.Texts.{print}
use qbo_invoice_sync.Invoice.{Date}
use qbo_invoice_sync.Queue.{InboundEvent, IngestEventInput, Queue, publish}
use qbo_invoice_sync.Webhooks.{
  EntityType, invoice, payment, entity_text, entity_of, ProviderWebhookEvent,
}
use qbo_invoice_sync.Provider.{AccountingProvider}
use qbo_invoice_sync.Controllers.{HttpReply, sent, failure, invalid, respond, property, fields_of}

pub data ChangeOperation : Type 0 where
  create update void delete : ChangeOperation

abbrev pub operation_text : ChangeOperation → String
operation_text create = "create"
operation_text update = "update"
operation_text void = "void"
operation_text delete = "delete"

-- `InternalChangeEvent` of src/services/webhookEmitter.ts
pub record InternalChangeEvent : Type 0 where
  pub entity_type : EntityType
  pub entity_id : String
  pub operation : ChangeOperation
  pub version : ℤ
  pub occurred_at : String

abbrev pub text_value : Option Json → Option String
text_value (some (str s)) = some s
text_value _ = none

abbrev pub integer_value : Option Json → Option ℤ
integer_value (some (num z)) = some z
integer_value _ = none

-- `z.string().min(1)`
abbrev pub nonempty : Option String → Option String
nonempty none = none
nonempty (some s) = if str_eq s "" then none else some s

abbrev pub operation_of : String → Option ChangeOperation
operation_of s =
    if str_eq s "create"
    then some create
    else if str_eq s "update"
    then some update
    else if str_eq s "void"
    then some void
    else if str_eq s "delete"
    then some delete
    else none

abbrev pub then_some : {A B : Type 0} → Option A → (A → Option B) → Option B
then_some none f = none
then_some (some a) f = f a

-- `internalEventSchema.parse`
unfoldable pub parse_internal : Json → Option InternalChangeEvent
unfolding property
parse_internal body = then_some (fields_of body) λ fs.
    then_some (text_value (property "entityType" fs)) λ name. then_some (entity_of name) λ type.
      then_some (nonempty (text_value (property "entityId" fs))) λ id.
        then_some (text_value (property "operation" fs)) λ op.
          then_some (operation_of op) λ operation.
            then_some (integer_value (property "version" fs)) λ version.
              then_some (text_value (property "occurredAt" fs)) λ at. some (record {
                entity_type = type;
                entity_id = id;
                operation = operation;
                version = version;
                occurred_at = at;
              })

-- `internal:${type}:${id}:${operation}:${version}`
unfoldable pub internal_key : InternalChangeEvent → String
unfolding print
internal_key e = text_append "internal:" (
    text_append (entity_text e.entity_type) (
      text_append ":" (
        text_append e.entity_id (
          text_append ":"
            (text_append (operation_text e.operation) (text_append ":" (print e.version)))))))

abbrev pub event_json : InternalChangeEvent → Json
event_json e = obj (
    field "entityType" (str (entity_text e.entity_type)) (
      field "entityId" (str e.entity_id) (
        field "operation" (str (operation_text e.operation))
          (field "version" (num e.version) (field "occurredAt" (str e.occurred_at) end)))))

abbrev pub provider_json : ProviderWebhookEvent → Json
provider_json e = obj (
    field "entityType" (str (entity_text e.entity_type)) (
      field "entityId" (str e.entity_id) (
        field "operation" (str e.operation)
          (field "occurredAt" (str e.occurred_at) (field "dedupeKey" (str e.dedupe_key) end)))))

-- The database refuses a date that is invalid.
abbrev pub invalid_date : SyncError
invalid_date = record { kind = plain_error; message = "invalid input syntax for type timestamp" }

-- `queue.publish`, at `now` of the database's clock
unfoldable pub publish_event : ℕ → IngestEventInput → Action Queue (Option InboundEvent)
unfolding publish
publish_event now event q =
    if is_some event.occurred_at
    then (let (after, inserted) = publish now event q in (ok inserted, after))
    else (err invalid_date, q)

pub record Accepted : Type 0 where
  pub accepted : Bool
  pub duplicate : Bool

pub record Counts : Type 0 where
  pub accepted : ℕ
  pub duplicates : ℕ

abbrev pub counted : Option InboundEvent → ℕ → ℕ
counted none n = suc n
counted (some e) n = n

-- The dates that texts denote are the runtime's.
module _ (parse_date : String → Date) (now : ℕ) where
  abbrev pub internal_input : InternalChangeEvent → IngestEventInput
  internal_input e = record {
    source = "internal";
    entity_type = entity_text e.entity_type;
    entity_id = e.entity_id;
    operation = operation_text e.operation;
    occurred_at = parse_date e.occurred_at;
    dedupe_key = internal_key e;
    payload = some (event_json e);
  }

  abbrev pub accept : InternalChangeEvent → Action Queue (HttpReply Accepted)
  accept e = do
    inserted ← publish_event now (internal_input e)
    pure (sent 200 (record { accepted = true; duplicate = not (is_some inserted) }))

  unfoldable pub handle_internal : Json → Queue → HttpReply Accepted × Queue
  unfolding parse_internal publish_event internal_key
  handle_internal body q = elim (parse_internal body) [
    | none ↦ (invalid, q)
    | some e ↦ respond (accept e q)
  ]

  abbrev pub provider_input : String → ProviderWebhookEvent → IngestEventInput
  provider_input source e = record {
    source = source;
    entity_type = entity_text e.entity_type;
    entity_id = e.entity_id;
    operation = e.operation;
    occurred_at = parse_date e.occurred_at;
    dedupe_key = e.dedupe_key;
    payload = some (provider_json e);
  }

  -- The loop over the events: how many of them were duplicates.
  unfoldable pub publish_all : String → List ProviderWebhookEvent → Action Queue ℕ
  unfolding publish_event
  publish_all source [] = pure 0
  publish_all source (e ∷ es) = do
    inserted ← publish_event now (provider_input source e)
    duplicates ← publish_all source es
    pure (counted inserted duplicates)

  abbrev pub publish_parsed :
      String → Result (List ProviderWebhookEvent) → Action Queue (HttpReply Counts)
  publish_parsed source (err e) q = (err e, q)
  publish_parsed source (ok events) q =
      (do
        duplicates ← publish_all source events
        pure (sent 200 (record { accepted = length events - duplicates; duplicates = duplicates })))
        q

  -- `raw_body` is the text that the signature covers, `at` the present time as a text.
  unfoldable pub handle_provider :
      {P : Type 0}
      → AccountingProvider P
      → String
      → List ℕ
      → Option (List ℕ)
      → Queue
      → HttpReply Counts × Queue
  unfolding publish_all
  handle_provider provider at raw_body signature q =
      if provider.verify_webhook_signature raw_body signature
      then respond (publish_parsed provider.name (provider.parse_webhook at raw_body) q)
      else (failure 401 "invalid signature", q)
