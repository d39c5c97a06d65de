-- ===== src/Controllers/Webhooks/Tests.antt =====
-- Deliveries to an empty inbox, and the theorems there.
use qbo_invoice_sync.Common.{◌≡◌, ◌↔◌, refl, true, none, some, List, [], ◌∷◌, String, map}
use qbo_invoice_sync.Common.Int.{pos}
use qbo_invoice_sync.Errors.{ok}
use qbo_invoice_sync.Action.{◌>>=◌}
use qbo_invoice_sync.Json.{Json, num, str, obj, end, field}
use qbo_invoice_sync.Decimal.{to_digits}
use qbo_invoice_sync.Invoice.{Date}
use qbo_invoice_sync.Queue.{Queue, has_key, publish}
use qbo_invoice_sync.Texts.{print}
use qbo_invoice_sync.Webhooks.{invoice, ProviderWebhookEvent}
use qbo_invoice_sync.Provider.{AccountingProvider}
use qbo_invoice_sync.Provider.Fake.{FakeState, fake_provider}
use qbo_invoice_sync.Controllers.{HttpReply, sent, property}
use qbo_invoice_sync.Controllers.Webhooks.{
  update, InternalChangeEvent, parse_internal, internal_key, handle_internal, handle_provider,
  publish_all, publish_event, Counts,
}
use qbo_invoice_sync.Controllers.Webhooks.Keys.{SameChange}
use qbo_invoice_sync.Controllers.Webhooks.Deliveries.{Delivered, provider_delivery}
use qbo_invoice_sync.Controllers.Webhooks.Changes.{redelivered_iff}

abbrev dated : String → Date
dated text = some 5

abbrev body : Json
body = obj (
    field "entityType" (str "invoice") (
      field "entityId" (str "i:1") (
        field "operation" (str "update")
          (field "version" (num (pos 2)) (field "occurredAt" (str "2026-01-02T00:00:00Z") end)))))

abbrev change : InternalChangeEvent
change = record {
  entity_type = invoice;
  entity_id = "i:1";
  operation = update;
  version = pos 2;
  occurred_at = "2026-01-02T00:00:00Z";
}

abbrev empty : Queue
empty = record { rows = []; next_id = 1 }

parsed : parse_internal body ≡ some change
unfolding parse_internal property
parsed = refl

key_test : internal_key change ≡ "internal:invoice:i:1:update:2"
unfolding internal_key print to_digits
key_test = refl

redelivered_iff_example :
    ((handle_internal dated 20 body (handle_internal dated 10 body empty).1).0
      ≡ sent 200 (record { accepted = true; duplicate = true }))
    ↔ SameChange change change
unfolding has_key
redelivered_iff_example =
    redelivered_iff dated 10 20 body body change change empty parsed parsed refl refl refl

abbrev notified : ProviderWebhookEvent
notified = record {
  entity_type = invoice;
  entity_id = "130";
  operation = "update";
  occurred_at = "2026-01-02";
  dedupe_key = "fake:130";
}

abbrev provider : AccountingProvider FakeState
provider = fake_provider (λ n. "1") (λ n. "0") (λ text. some (notified ∷ notified ∷ []))

abbrev delivered : HttpReply Counts × Queue
delivered = handle_provider dated 10 provider "now" [] none empty

counts_test : delivered.0 ≡ sent 200 (record { accepted = 1; duplicates = 1 })
unfolding handle_provider publish_all publish_event ◌>>=◌ publish has_key
counts_test = refl

provider_delivery_example :
    (true ≡ true)
    × ((events : List ProviderWebhookEvent) × (ok (notified ∷ notified ∷ []) ≡ ok events)
        × Delivered
            (map (λ e. e.dedupe_key) events)
            empty
            delivered.1
            (record { accepted = 1; duplicates = 1 }))
provider_delivery_example =
    provider_delivery provider dated 10 "now" [] none empty delivered.1
      (record { accepted = 1; duplicates = 1 }) (λ i. (counts_test i, delivered.1))
