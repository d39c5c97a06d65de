-- ===== src/Worker/Tests.antt =====
-- The worker over a pipeline that fails, and the theorems there.
use qbo_invoice_sync.Common.{ℕ, suc, ◌+◌, ◌≤◌, ◌≡◌, refl, true, false, none, some, [], ◌∷◌, arith}
use qbo_invoice_sync.Errors.{SyncError, transient_provider_error, permanent_provider_error, err}
use qbo_invoice_sync.Audit.{record_entry}
use qbo_invoice_sync.Queue.{
  dead, Row, InboundEvent, IngestEventInput, Queue, new_row, to_event, take_lease, claim,
  select_due, update_row, retry_later, dead_letter, finish, postpone,
}
use qbo_invoice_sync.Queue.Rows.{NoneDue}
use qbo_invoice_sync.Queue.Invariant.{IsValid}
use qbo_invoice_sync.Worker.{
  SyncWorkerOptions, Readings, World, Process, backoff_exp, backoff_delay, tick, process_claimed,
  handle_error, drain, failure_entry,
}
use qbo_invoice_sync.Worker.Backoff.{backoff_bounds}
use qbo_invoice_sync.Worker.Progress.{drain_stops}

abbrev notification : IngestEventInput
notification = record {
  source = "external";
  entity_type = "invoice";
  entity_id = "7";
  operation = "update";
  occurred_at = some 5;
  dedupe_key = "external:invoice:7";
  payload = none;
}

abbrev row : Row
row = new_row 1 10 notification

abbrev world : World ℕ
world = record {
  queue = record { rows = row ∷ []; next_id = 2 };
  audit = record { rows = []; next_id = 1 };
  sync = 0;
}

abbrev options : SyncWorkerOptions
options = record {
  max_attempts = 2;
  lease_ms = none;
  backoff_base_ms = none;
  backoff_max_ms = none;
}

-- Every round a millisecond after the one before it.
abbrev readings : ℕ → Readings
readings n = record {
  claim_now = 20 + n;
  held = λ _. false;
  settle_now = 20 + n;
  audit_now = 20 + n;
  random = 0;
}

abbrev unavailable : SyncError
unavailable = record { kind = transient_provider_error; message = "503" }

-- The pipeline counts its calls and fails.
abbrev pipeline : Process ℕ
pipeline _ (log, n) = (err unavailable, log, suc n)

abbrev event : InboundEvent
event = to_event (take_lease 20 60000 row)

abbrev claimed_queue : Queue
claimed_queue = record { rows = take_lease 20 60000 row ∷ []; next_id = 2 }

-- The first failure is put off by half the base delay, since the random fraction is 0.
tick_test : tick options pipeline (readings 0) world ≡ (
  record world {
    queue = record {
      rows = postpone 520 "TransientProviderError: 503" (take_lease 20 60000 row) ∷ [];
      next_id = 2;
    };
    sync = 1;
  },
  true,
)
unfolding tick process_claimed handle_error claim select_due update_row retry_later backoff_delay
tick_test = refl

-- A permanent error makes a dead letter and an audit entry.
dead_test :
    let broken : SyncError = record { kind = permanent_provider_error; message = "gone" } in
    (tick options (λ _ s. (err broken, s.0, s.1)) (readings 0) world).0 ≡ record world {
      queue = record {
        rows = finish 20 dead (some "PermanentProviderError: gone") (take_lease 20 60000 row) ∷ [];
        next_id = 2;
      };
      audit = record_entry 20 (failure_entry event broken) world.audit;
    }
unfolding tick process_claimed handle_error claim select_due update_row dead_letter
dead_test = refl

world-IsValid : IsValid world.queue
world-IsValid = record {
  below = (omega arith, tt);
  ascending = (tt, tt);
  keys = (tt, tt);
  locks = (refl, tt);
}

drain_stops_example :
    let (w', n) = drain options pipeline readings world in
    IsValid w'.queue × (n ≤ 3) × NoneDue (readings n).claim_now (readings n).held w'.queue.rows
drain_stops_example = drain_stops options pipeline readings world world-IsValid (omega arith)

backoff_bounds_example :
    (backoff_exp options 1 ≤ backoff_delay options 7 1 + backoff_delay options 7 1)
    × (backoff_delay options 7 1 ≤ backoff_exp options 1)
    × (backoff_exp options 1 ≤ 60000)
    × (backoff_exp options 1 ≤ backoff_exp options 4)
backoff_bounds_example = backoff_bounds options 7 1 4 (omega arith) (omega arith)
