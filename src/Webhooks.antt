-- ===== src/Webhooks.antt =====
-- Notifications as they come in over HTTP: `ProviderWebhookEvent` of
-- src/providers/accountingProvider.ts and how QuickBooks spells it
-- (src/providers/quickbooks/qboProvider.ts). HMAC and `JSON.parse` are the runtime's.
use Prim.Native.String.{◌++◌ as text_append}
use qbo_invoice_sync.Common.{
  ℕ, Bool, false, ◌&&◌, not, Option, none, some, or_else, List, [], ◌∷◌, ◌++◌, String, str_eq,
  text_eq, if◌then◌else◌,
}
use qbo_invoice_sync.Texts.{lower}

pub data EntityType : Type 0 where
  invoice payment : EntityType

abbrev pub entity_text : EntityType → String
entity_text invoice = "invoice"
entity_text payment = "payment"

-- `occurredAt` is the text that the sender gave.
pub record ProviderWebhookEvent : Type 0 where
  pub entity_type : EntityType
  pub entity_id : String
  pub operation : String
  pub occurred_at : String
  pub dedupe_key : String

-- An entity of `dataChangeEvent`.
pub record ChangedEntity : Type 0 where
  pub name : Option String
  pub id : Option String
  pub operation : Option String
  pub last_updated : Option String

-- The parsed body: the entities of each notification.
pub record WebhookPayload : Type 0 where
  pub event_notifications : Option (List (Option (List ChangedEntity)))

abbrev pub entity_of : String → Option EntityType
entity_of name =
    if str_eq name "invoice"
    then some invoice
    else if str_eq name "payment"
    then some payment
    else none

-- `quickbooks:${name}:${entity.id}:${operation}:${occurredAt}`
unfoldable pub provider_key : EntityType → String → String → String → String
provider_key type id operation occurred_at = text_append "quickbooks:" (
    text_append (entity_text type) (
      text_append ":"
        (text_append id (text_append ":" (text_append operation (text_append ":" occurred_at))))))

abbrev pub event_of : EntityType → String → String → String → ProviderWebhookEvent
event_of type id operation occurred_at = record {
  entity_type = type;
  entity_id = id;
  operation = operation;
  occurred_at = occurred_at;
  dedupe_key = provider_key type id operation occurred_at;
}

-- A text that is there and not empty
abbrev pub given : Option String → Option String
given none = none
given (some s) = if str_eq s "" then none else some s

-- The event of an entity, the present time being `now`; none for what is passed over.
unfoldable pub entity_event : String → ChangedEntity → Option ProviderWebhookEvent
unfolding lower provider_key
entity_event now entity = elim (entity_of (lower (or_else entity.name ""))) [
  | none ↦ none
  | some type ↦ elim (given entity.id) [
    | none ↦ none
    | some id ↦ elim (given entity.operation) [
      | none ↦ none
      | some operation ↦ some (event_of type id (lower operation) (or_else entity.last_updated now))
    ]
  ]
]

abbrev pub entity_events : String → List ChangedEntity → List ProviderWebhookEvent
unfolding entity_event
entity_events now [] = []
entity_events now (e ∷ es) = elim (entity_event now e) [
  | none ↦ entity_events now es
  | some event ↦ event ∷ entity_events now es
]

abbrev pub notification_events :
    String → List (Option (List ChangedEntity)) → List ProviderWebhookEvent
notification_events now [] = []
notification_events now (n ∷ ns) = entity_events now (or_else n []) ++ notification_events now ns

-- `parseWebhook`, behind `JSON.parse`; every event that has no time of its own gets the present one.
unfoldable pub parse_webhook : String → WebhookPayload → List ProviderWebhookEvent
unfolding entity_event
parse_webhook now payload = notification_events now (or_else payload.event_notifications [])

-- `verifyWebhookSignature`: the signature is the digest of the body under the verifier's token.
unfoldable pub verify_webhook_signature :
    (String → List ℕ → List ℕ) → String → List ℕ → Option (List ℕ) → Bool
verify_webhook_signature hmac token raw_body none = false
verify_webhook_signature hmac token raw_body (some signature) =
    not (text_eq signature []) && not (str_eq token "") && text_eq (hmac token raw_body) signature
