-- ===== src/Sync/Tests.antt =====
-- The pipeline over the in-memory provider, and the theorems there.
use qbo_invoice_sync.Common.{ℕ, zero, suc, ◌≡◌, refl, true, false, none, some, [], ◌∷◌, String}
use qbo_invoice_sync.Common.Int.{pos}
use qbo_invoice_sync.Errors.{Result, ok}
use qbo_invoice_sync.Action.{◌>>=◌}
use qbo_invoice_sync.Audit.{applied, skipped_echo}
use qbo_invoice_sync.Invoice.{
  open_status, active, ComparableInvoice, to_comparable, sort_lines, snapshot_hash,
}
use qbo_invoice_sync.Resolver.{one_sided_internal, Apply, apply}
use qbo_invoice_sync.Queue.{InboundEvent, in_flight}
use qbo_invoice_sync.Ledger.{InternalInvoice}
use qbo_invoice_sync.Ledger.Applying.{to_canonical}
use qbo_invoice_sync.Links.{EntityLink, invoice_entity, find_link}
use qbo_invoice_sync.Worker.{SyncOutcome, ok_outcome, skip_outcome}
use qbo_invoice_sync.Provider.Fake
use qbo_invoice_sync.Provider.Fake.{FakeState, fake_provider}
use qbo_invoice_sync.Sync.{World, Env, in_remote, in_links, write_audit}
use qbo_invoice_sync.Sync.Resolving.{Sides, apply_resolution}
use qbo_invoice_sync.Sync.Invoices.{compare_linked}
use qbo_invoice_sync.Sync.Echoes.{own_write_suppressed}
use qbo_invoice_sync.Sync.Payments.{process_internal_payment, sum_allocated}
use qbo_invoice_sync.Common.Int.{◌+ℤ◌}
use qbo_invoice_sync.Sync.{in_ledger}
use qbo_invoice_sync.Sync.Copying.{payment_copied_once}
use qbo_invoice_sync.Audit.{skipped_duplicate}
use qbo_invoice_sync.Sync.Pipeline.{process_event}
use qbo_invoice_sync.Sync.Auditing.{Audited}
use qbo_invoice_sync.Sync.Auditing.Events.{process_event-Audited}

abbrev strokes : ℕ → String
strokes zero = String.[]
strokes (suc n) = String.◌∷◌ "|" (strokes n)

abbrev env : Env FakeState
env = record {
  provider = fake_provider strokes strokes (λ _. none);
  sha256 = λ text. text;
  fresh = λ n. record { now = n; db_now = n; id = strokes n; customer_id = strokes n };
}

abbrev world : World FakeState
world = record {
  ledger = record {
    customers = record { id = "c1"; name = "Acme" } ∷ [];
    invoices =
        record {
          id = "i1";
          doc_number = "INV-1";
          customer_id = "c1";
          status = open_status;
          currency = "USD";
          notes = none;
          total_cents = pos 1000;
          version = 1;
          created_at = 5;
          updated_at = 5;
        }
        ∷ [];
    lines = [];
    payments = [];
    doc_number_seq = 1002;
  };
  links = record { rows = []; next_id = 1 };
  audit = record { rows = []; next_id = 1 };
  remote = record {
    invoices = [];
    payments = [];
    failures = [];
    reallocations = [];
    calls = [];
    draws = 0;
  };
  ops = 0;
}

abbrev event : InboundEvent
event = record {
  id = 1;
  source = "internal";
  entity_type = "invoice";
  entity_id = "i1";
  operation = "create";
  occurred_at = some 5;
  dedupe_key = "internal:invoice:i1:1";
  payload = none;
  status = in_flight;
  attempts = 1;
  last_error = none;
}

process_event-Audited_example : Audited event world.audit (process_event env event world)
process_event-Audited_example = process_event-Audited env event world

abbrev edited : ComparableInvoice
edited = record {
  doc_number = "INV-1";
  customer_name = "Acme";
  lifecycle = active;
  currency = "USD";
  notes = some "edited";
  total_cents = pos 1000;
  lines = [];
}

-- An edit of the internal invoice, which the provider does not have yet.
abbrev edit : Apply
edit = record {
  merged = edited;
  write_internal = false;
  write_external = true;
  decision = one_sided_internal;
  overwritten = none;
}

abbrev internal : InternalInvoice
internal = record {
  id = "i1";
  doc_number = "INV-1";
  customer_id = "c1";
  customer_name = "Acme";
  status = open_status;
  currency = "USD";
  notes = some "edited";
  total_cents = pos 1000;
  balance_cents = pos 1000;
  version = 2;
  updated_at = 6;
  lines = [];
  payments = [];
}

abbrev link : EntityLink
link = record {
  id = 1;
  provider = "fake";
  entity_type = invoice_entity;
  internal_id = "i1";
  external_id = "7";
  external_sync_token = some "";
  internal_version = some 1;
  last_synced_hash = none;
  last_synced_snapshot = none;
  last_synced_at = none;
  updated_at = 5;
}

abbrev linked_world : World FakeState
linked_world = record world {
  links = record { rows = link ∷ []; next_id = 2 };
  remote = record (world.remote) {
    invoices =
        record {
          external_id = "7";
          sync_token = 0;
          invoice = record (to_canonical internal) { notes = none };
        }
        ∷ [];
  };
}

abbrev sides : Sides
sides = record {
  internal = internal;
  internal_canonical = to_canonical internal;
  external_state = some (record {
    external_id = "7";
    sync_token = "";
    invoice = some (record (to_canonical internal) { notes = none });
  });
}

abbrev resolved : Result SyncOutcome × World FakeState
resolved = apply_resolution env event link (apply edit) sides linked_world

abbrev synced_link : EntityLink
synced_link = record link {
  external_sync_token = some "|";
  internal_version = some 2;
  last_synced_hash = some (snapshot_hash (λ text. text) edited);
  last_synced_snapshot = some edited;
  last_synced_at = some 2;
  updated_at = 2;
}

edit_applied : resolved.0 ≡ ok (record { kind = ok_outcome; action = applied })
unfolding apply_resolution ◌>>=◌ in_remote in_links write_audit Fake.update_invoice
edit_applied = refl

edit_link : find_link 1 resolved.1.links.rows ≡ some synced_link
unfolding apply_resolution ◌>>=◌ in_remote in_links write_audit Fake.update_invoice find_link
edit_link = refl

edited-eq : to_comparable (to_canonical internal) ≡ edited
unfolding to_comparable sort_lines
edited-eq = refl

own_write_suppressed_example :
    ((compare_linked env event synced_link internal none world).0
      ≡ ok (record { kind = skip_outcome; action = skipped_echo }))
    × ((compare_linked env event synced_link internal none world).1.ledger ≡ world.ledger)
    × ((compare_linked env event synced_link internal none world).1.links ≡ world.links)
    × ((compare_linked env event synced_link internal none world).1.remote ≡ world.remote)
own_write_suppressed_example =
    own_write_suppressed env event event link synced_link edit sides linked_world resolved.1 world
      (record { kind = ok_outcome; action = applied }) internal none
      (λ i. (edit_applied i, resolved.1)) edit_link edited-eq

-- The internal invoice has a payment of four dollars, which the provider does not have yet.
abbrev payment_world : World FakeState
payment_world = record linked_world {
  ledger = record (world.ledger) {
    payments =
        record {
          id = "p1";
          invoice_id = "i1";
          amount_cents = pos 400;
          method = "cash";
          received_at = some 15;
          external_ref = none;
        }
        ∷ [];
  };
}

abbrev payment_event : InboundEvent
payment_event = record event { entity_type = "payment"; entity_id = "p1" }

abbrev copied : Result SyncOutcome × World FakeState
copied = process_internal_payment env payment_event payment_world

payment_applied : copied.0 ≡ ok (record { kind = ok_outcome; action = applied })
unfolding process_internal_payment ◌>>=◌ in_links in_ledger in_remote Fake.find_payment_by_reference
    Fake.create_payment sum_allocated ◌+ℤ◌
payment_applied = refl

payment_copied_once_example :
    ((process_internal_payment env payment_event copied.1).0
      ≡ ok (record { kind = skip_outcome; action = skipped_duplicate }))
    × ((process_internal_payment env payment_event copied.1).1.ledger ≡ copied.1.ledger)
    × ((process_internal_payment env payment_event copied.1).1.links ≡ copied.1.links)
    × ((process_internal_payment env payment_event copied.1).1.remote ≡ copied.1.remote)
payment_copied_once_example =
    payment_copied_once env payment_event payment_event payment_world copied.1 copied.1
      (record { kind = ok_outcome; action = applied }) (λ i. (payment_applied i, copied.1)) refl
      refl
