-- ===== src/Sync/Working/Tests.antt =====
-- The worker over the pipeline, on an event of a kind that the pipeline does not support.
use qbo_invoice_sync.Common.{ℕ, zero, suc, false, none, some, [], ◌∷◌, String}
use qbo_invoice_sync.Queue.{Row, new_row, take_lease}
use qbo_invoice_sync.Worker
use qbo_invoice_sync.Worker.{SyncWorkerOptions, Readings}
use qbo_invoice_sync.Provider.Fake.{FakeState, fake_provider}
use qbo_invoice_sync.Sync.{World, Env}

abbrev strokes : ℕ → String
strokes zero = String.[]
strokes (suc n) = String.◌∷◌ "|" (strokes n)

abbrev env : Env FakeState
env = record {
  provider = fake_provider strokes strokes (λ _. none);
  sha256 = λ text. text;
  fresh = λ n. record { now = n; db_now = n; id = strokes n; customer_id = strokes n };
}

abbrev row : Row
row = new_row 1 10 (record {
  source = "internal";
  entity_type = "customer";
  entity_id = "c1";
  operation = "update";
  occurred_at = some 5;
  dedupe_key = "internal:customer:c1";
  payload = none;
})

abbrev world : Worker.World (World FakeState)
world = record {
  queue = record { rows = row ∷ []; next_id = 2 };
  audit = record { rows = []; next_id = 1 };
  sync = record {
    ledger = record {
      customers = [];
      invoices = [];
      lines = [];
      payments = [];
      doc_number_seq = 1;
    };
    links = record { rows = []; next_id = 1 };
    audit = record { rows = []; next_id = 1 };
    remote = record {
      invoices = [];
      payments = [];
      failures = [];
      reallocations = [];
      calls = [];
      draws = 0;
    };
    ops = 0;
  };
}

abbrev options : SyncWorkerOptions
options = record {
  max_attempts = 8;
  lease_ms = none;
  backoff_base_ms = none;
  backoff_max_ms = none;
}

abbrev readings : Readings
readings = record { claim_now = 20; held = λ _. false; settle_now = 21; audit_now = 22; random = 0 }

abbrev claimed : Row
claimed = take_lease 20 60000 row
