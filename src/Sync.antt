-- ===== src/Sync.antt =====
-- The synchronisation pipeline (src/services/syncService.ts): what it works on, and the effects
-- that its steps use.
pub mod Resolving
pub mod Invoices
pub mod Payments
pub mod Pipeline
pub mod Auditing
pub mod Echoes
pub mod Copying
pub mod Working
mod Tests
use qbo_invoice_sync.Common.{ℕ, suc, ◌+◌, Bool, Option, none, some, List, String, if◌then◌else◌}
use qbo_invoice_sync.Errors.{SyncError, Result, ok, err}
use qbo_invoice_sync.Action.{
  Action, pure, raise, gets, modify, guard, or_raise, continue, ◌>>=◌, ◌>>◌,
}
use qbo_invoice_sync.Json.{Json, str, obj, Fields, end, field}
use qbo_invoice_sync.Audit.{
  AuditAction, skipped_echo, skipped_stale, skipped_duplicate, skipped_noop, AuditEntry, AuditLog,
  record_entry,
}
use qbo_invoice_sync.Queue.{InboundEvent}
use qbo_invoice_sync.Ledger.{Ledger, Fresh}
use qbo_invoice_sync.Links.{Links}
use qbo_invoice_sync.Provider.{AccountingProvider}
use qbo_invoice_sync.Worker.{SyncOutcome, ok_outcome, skip_outcome}

-- The database's tables, the provider's state, and how many operations have read the clocks.
pub record World (P : Type 0) : Type 0 where
  pub ledger : Ledger
  pub links : Links
  pub audit : AuditLog
  pub remote : P
  pub ops : ℕ

-- What the pipeline is given: the provider, the digest and the printer of the runtime, what the
-- clocks and the random ids are at each operation.
pub record Env (P : Type 0) : Type 0 where
  pub provider : AccountingProvider P
  pub sha256 : List ℕ → List ℕ
  pub fresh : ℕ → Fresh

module _ {P A : Type 0} where
  -- One operation of a component, on its part of the world.
  abbrev pub in_ledger_at : World P → Result A × Ledger → Result A × World P
  in_ledger_at w (r, l) = (r, record w { ledger = l; ops = w.ops + 1 })

  unfoldable pub in_ledger : Env P → (Fresh → Action Ledger A) → Action (World P) A
  in_ledger env f w = in_ledger_at w (f (env.fresh w.ops) w.ledger)

  abbrev pub in_links_at : World P → Result A × Links → Result A × World P
  in_links_at w (r, l) = (r, record w { links = l; ops = w.ops + 1 })

  unfoldable pub in_links : Env P → (Fresh → Action Links A) → Action (World P) A
  in_links env f w = in_links_at w (f (env.fresh w.ops) w.links)

  abbrev pub in_remote_at : World P → Result A × P → Result A × World P
  in_remote_at w (r, s) = (r, record w { remote = s; ops = w.ops + 1 })

  unfoldable pub in_remote : Env P → Action P A → Action (World P) A
  in_remote env f w = in_remote_at w (f w.remote)

-- The four actions that `skip` takes.
pub data SkipAction : Type 0 where
  echo stale noop duplicate : SkipAction

abbrev pub skip_action : SkipAction → AuditAction
skip_action echo = skipped_echo
skip_action stale = skipped_stale
skip_action noop = skipped_noop
skip_action duplicate = skipped_duplicate

abbrev pub skip_entry : InboundEvent → SkipAction → Fields → AuditEntry
skip_entry event action detail = record {
  inbound_event_id = some event.id;
  entity_type = event.entity_type;
  internal_id = none;
  external_id = none;
  action = skip_action action;
  detail = some (obj detail);
}

abbrev pub reason : String → Fields
reason text = field "reason" (str text) end

module _ {P : Type 0} (env : Env P) where
  unfoldable pub write_audit : AuditEntry → Action (World P) Unit
  write_audit entry w = (
    ok tt,
    record w { audit = record_entry (env.fresh w.ops).db_now entry w.audit; ops = w.ops + 1 },
  )

  -- `new Date()`
  abbrev pub read_clock : Action (World P) ℕ
  read_clock w = (ok (env.fresh w.ops).now, record w { ops = w.ops + 1 })

  unfoldable pub skip : InboundEvent → SkipAction → Fields → Action (World P) SyncOutcome
  unfolding write_audit
  skip event action detail = do
    write_audit (skip_entry event action detail)
    pure (record { kind = skip_outcome; action = skip_action action })

  -- The end of a path that synchronised something.
  abbrev pub finish_ok : AuditEntry → Action (World P) SyncOutcome
  finish_ok entry = do write_audit entry; pure (record { kind = ok_outcome; action = entry.action })
