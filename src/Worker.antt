-- ===== src/Worker.antt =====
-- The worker (src/workers/syncWorker.ts): claims an event, runs the pipeline on it, and settles it.
-- The pipeline is a parameter here; database calls are taken to succeed.
pub mod Backoff
pub mod Settling
pub mod Rounds
pub mod Progress
pub mod Outcomes
mod Tests
use Prim.Native.String.{◌++◌ as text_append}
use qbo_invoice_sync.Common.{
  ℕ, zero, suc, ◌+◌, ◌-◌, ◌*◌, ◌/◌, ◌^◌, min, Bool, true, false, ◌||◌, Option, none, some, or_else,
  String, leb, if◌then◌else◌,
}
use qbo_invoice_sync.Common.Int.{pos}
use qbo_invoice_sync.Json.{Json, num, str, obj, end, field}
use qbo_invoice_sync.Errors.{
  SyncError, ErrorClass, is_permanent, is_stale, error_name, Result, ok, err,
}
use qbo_invoice_sync.Audit.{AuditAction, AuditEntry, AuditLog, record_entry}
use qbo_invoice_sync.Audit
use qbo_invoice_sync.Queue.{
  InboundEvent, Queue, Disposition, as_processed, as_skipped, claim, ack, dead_letter, retry_later,
}

pub data OutcomeKind : Type 0 where
  ok_outcome skip_outcome : OutcomeKind

-- `SyncOutcome` of src/services/syncService.ts
pub record SyncOutcome : Type 0 where
  pub kind : OutcomeKind
  pub action : AuditAction

pub record SyncWorkerOptions : Type 0 where
  pub max_attempts : ℕ
  pub lease_ms : Option ℕ
  pub backoff_base_ms : Option ℕ
  pub backoff_max_ms : Option ℕ

-- What one round reads from outside: the database's clock at the claim, the rows that other
-- transactions hold then, the program's clock when the event is settled, the database's clock at
-- the audit entry, and `Math.random()` as a fraction of 2^53.
pub record Readings : Type 0 where
  pub claim_now : ℕ
  pub held : ℕ → Bool
  pub settle_now : ℕ
  pub audit_now : ℕ
  pub random : ℕ

-- `Math.min(base * 2 ** (attempts - 1), max)`; a claimed event has one attempt at least.
unfoldable pub backoff_exp : SyncWorkerOptions → ℕ → ℕ
backoff_exp options attempts =
    min (or_else options.backoff_base_ms 1000 * 2 ^ (attempts - 1))
      (or_else options.backoff_max_ms 60000)

-- `Math.round(exp / 2 + Math.random() * (exp / 2))`, in exact arithmetic
unfoldable pub backoff_delay : SyncWorkerOptions → ℕ → ℕ → ℕ
unfolding backoff_exp
backoff_delay options random attempts =
    (backoff_exp options attempts * (2 ^ 53 + random) + 2 ^ 53) / 2 ^ 54

-- The queue, the audit log, and what the pipeline itself works on.
pub record World (S : Type 0) : Type 0 where
  pub queue : Queue
  pub audit : AuditLog
  pub sync : S

-- The pipeline, on the audit log that the worker shares with it and on what else it works on.
abbrev pub Process : Type 0 → Type 0
Process S = InboundEvent → AuditLog × S → Result SyncOutcome × AuditLog × S

-- `${err.name}: ${err.message}`
abbrev pub error_message : SyncError → String
error_message e = text_append (error_name e.kind) (text_append ": " e.message)

unfoldable pub failure_entry : InboundEvent → SyncError → AuditEntry
failure_entry event e = record {
  inbound_event_id = some event.id;
  entity_type = event.entity_type;
  internal_id = none;
  external_id = none;
  action = Audit.AuditAction.failed;
  detail = some (
      obj (
        field "reason"
          (str (if is_permanent e.kind then "permanent_error" else "attempts_exhausted"))
          (field "message" (str (error_message e))
            (field "attempts" (num (pos event.attempts)) end))));
}

abbrev pub disposition : OutcomeKind → Disposition
disposition ok_outcome = as_processed
disposition skip_outcome = as_skipped

-- Stale optimistic-lock races retry quickly; other failures back off.
abbrev pub retry_delay : SyncWorkerOptions → Readings → InboundEvent → SyncError → ℕ
retry_delay options t event e =
    if is_stale e.kind then 100 else backoff_delay options t.random event.attempts

module _ {S : Type 0} (options : SyncWorkerOptions) where
  unfoldable pub handle_error : Readings → InboundEvent → SyncError → World S → World S
  handle_error t event e w =
      if is_permanent e.kind || leb options.max_attempts event.attempts
      then record w {
        queue = dead_letter t.settle_now event.id (error_message e) w.queue;
        audit = record_entry t.audit_now (failure_entry event e) w.audit;
      }
      else record w {
        queue =
            retry_later event.id (t.settle_now + retry_delay options t event e) (error_message e)
              w.queue;
      }

  abbrev pub settle : Readings → InboundEvent → Result SyncOutcome → World S → World S
  settle t event (ok outcome) w = record w {
    queue = ack t.settle_now event.id (disposition outcome.kind) w.queue;
  }
  settle t event (err e) w = handle_error t event e w

  module _ (process : Process S) where
    unfoldable pub process_claimed : Readings → InboundEvent → World S → World S
    process_claimed t event w =
        let (result, audit, sync) = process event (w.audit, w.sync) in
        settle t event result (record w { audit = audit; sync = sync })

    -- The rest of `tick`, behind the claim.
    unfoldable pub after_claim : Readings → World S → Queue × Option InboundEvent → World S × Bool
    after_claim t w (q, none) = (record w { queue = q }, false)
    after_claim t w (q, some e) = (process_claimed t e (record w { queue = q }), true)

    -- Claims one event and processes it; false where the queue has none that is due.
    unfoldable pub tick : Readings → World S → World S × Bool
    unfolding after_claim
    tick t w = after_claim t w (claim t.claim_now (or_else options.lease_ms 60000) t.held w.queue)

    -- The loop of `drain` with that many rounds left, and what the rounds from `i` on read.
    unfoldable pub drain_loop : ℕ → ℕ → (ℕ → Readings) → World S → World S × ℕ
    drain_loop zero i readings w = (w, i)
    drain_loop (suc f) i readings w =
        let rest = drain_loop f (i + 1) readings (tick (readings i) w).0 in
        if (tick (readings i) w).1 then rest else ((tick (readings i) w).0, i)

    unfoldable pub drain : (ℕ → Readings) → World S → World S × ℕ
    unfolding drain_loop
    drain readings w = drain_loop 1000 0 readings w
