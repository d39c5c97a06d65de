-- ===== src/Queue.antt =====
-- The durable event queue: the port of src/queue/eventQueue.ts and its Postgres adapter,
-- src/queue/pgEventQueue.ts, over the table `inbound_events`.
pub mod Rows
pub mod Publish
pub mod Claim
pub mod Invariant
pub mod History
pub mod Lease
pub mod Recovery
mod Tests
use qbo_invoice_sync.Common.{
  ℕ, suc, ◌+◌, Bool, true, false, not, ◌&&◌, ◌||◌, Option, none, some, List, [], ◌∷◌, ◌++◌, map,
  String, str_eq, ltb, leb, ◌==◌, take, if◌then◌else◌,
}
use qbo_invoice_sync.Json.{Json}
use qbo_invoice_sync.Invoice.{Date}
use mathlib.Core.List.{reverse}

pub data InboundEventStatus : Type 0 where
  pending in_flight processed skipped failed dead : InboundEventStatus

-- A row of `inbound_events`. The times of the queue itself are milliseconds of its clocks;
-- `occurred_at` is what the sender said.
pub record Row : Type 0 where
  pub id : ℕ
  pub source : String
  pub entity_type : String
  pub entity_id : String
  pub operation : String
  pub occurred_at : Date
  pub dedupe_key : String
  pub payload : Option Json
  pub status : InboundEventStatus
  pub attempts : ℕ
  pub next_attempt_at : ℕ
  pub locked_until : Option ℕ
  pub last_error : Option String
  pub processed_at : Option ℕ

pub record InboundEvent : Type 0 where
  pub id : ℕ
  pub source : String
  pub entity_type : String
  pub entity_id : String
  pub operation : String
  pub occurred_at : Date
  pub dedupe_key : String
  pub payload : Option Json
  pub status : InboundEventStatus
  pub attempts : ℕ
  pub last_error : Option String

abbrev pub to_event : Row → InboundEvent
to_event row = record {
  id = row.id;
  source = row.source;
  entity_type = row.entity_type;
  entity_id = row.entity_id;
  operation = row.operation;
  occurred_at = row.occurred_at;
  dedupe_key = row.dedupe_key;
  payload = row.payload;
  status = row.status;
  attempts = row.attempts;
  last_error = row.last_error;
}

pub record IngestEventInput : Type 0 where
  pub source : String
  pub entity_type : String
  pub entity_id : String
  pub operation : String
  pub occurred_at : Date
  pub dedupe_key : String
  pub payload : Option Json

-- The table, and the next value of the sequence behind `id`.
pub record Queue : Type 0 where
  pub rows : List Row
  pub next_id : ℕ

abbrev pub status_eq : InboundEventStatus → InboundEventStatus → Bool
status_eq pending pending = true
status_eq in_flight in_flight = true
status_eq processed processed = true
status_eq skipped skipped = true
status_eq failed failed = true
status_eq dead dead = true
status_eq _ _ = false

unfoldable pub has_key : String → List Row → Bool
has_key key [] = false
has_key key (r ∷ rs) = str_eq r.dedupe_key key || has_key key rs

abbrev pub new_row : ℕ → ℕ → IngestEventInput → Row
new_row id now event = record {
  id = id;
  source = event.source;
  entity_type = event.entity_type;
  entity_id = event.entity_id;
  operation = event.operation;
  occurred_at = event.occurred_at;
  dedupe_key = event.dedupe_key;
  payload = event.payload;
  status = pending;
  attempts = 0;
  next_attempt_at = now;
  locked_until = none;
  last_error = none;
  processed_at = none;
}

-- `INSERT … ON CONFLICT (dedupe_key) DO NOTHING RETURNING *`, at `now` of the database's clock. The
-- sequence advances on a conflict too.
unfoldable pub publish : ℕ → IngestEventInput → Queue → Queue × Option InboundEvent
unfolding has_key
publish now event q =
    if has_key event.dedupe_key q.rows then (record q { next_id = q.next_id + 1 }, none) else (
      record { rows = q.rows ++ (new_row q.next_id now event ∷ []); next_id = q.next_id + 1 },
      some (to_event (new_row q.next_id now event)),
    )

-- `locked_until <= now`, false on null
abbrev pub lock_expired : ℕ → Option ℕ → Bool
lock_expired now none = false
lock_expired now (some until) = leb until now

-- The `where` of the claim.
abbrev pub is_due : ℕ → Row → Bool
is_due now r = elim r.status [
  | pending ↦ leb r.next_attempt_at now
  | failed ↦ leb r.next_attempt_at now
  | in_flight ↦ lock_expired now r.locked_until
  | _ ↦ false
]

-- The row with the least id of two.
abbrev pub lesser : Row → Option Row → Row
lesser r none = r
lesser r (some s) = if leb r.id s.id then r else s

-- `ORDER BY id ASC LIMIT 1 FOR UPDATE SKIP LOCKED`: the due row with the least id, passing over those
-- that another transaction holds.
unfoldable pub select_due : ℕ → (ℕ → Bool) → List Row → Option Row
select_due now held [] = none
select_due now held (r ∷ rs) =
    if is_due now r && not (held r.id)
    then some (lesser r (select_due now held rs))
    else select_due now held rs

-- `UPDATE … WHERE id = …`
unfoldable pub update_row : ℕ → (Row → Row) → List Row → List Row
update_row id f [] = []
update_row id f (r ∷ rs) = (if r.id == id then f r else r) ∷ update_row id f rs

abbrev pub take_lease : ℕ → ℕ → Row → Row
take_lease now lease_ms r = record r {
  status = in_flight;
  attempts = r.attempts + 1;
  locked_until = some (now + lease_ms);
}

-- The transaction of `claim`, at `now` of the database's clock.
unfoldable pub claim : ℕ → ℕ → (ℕ → Bool) → Queue → Queue × Option InboundEvent
unfolding select_due update_row
claim now lease_ms held q = elim (select_due now held q.rows) [
  | none ↦ (q, none)
  | some r ↦ (
    record q { rows = update_row r.id (take_lease now lease_ms) q.rows },
    some (to_event (take_lease now lease_ms r)),
  )
]

abbrev pub finish : ℕ → InboundEventStatus → Option String → Row → Row
finish now status error r = record r {
  status = status;
  processed_at = some now;
  locked_until = none;
  last_error = error;
}

-- `markTerminal`, at `now` of the program's clock
unfoldable pub mark_terminal : ℕ → ℕ → InboundEventStatus → Option String → Queue → Queue
unfolding update_row
mark_terminal now id status error q = record q {
  rows = update_row id (finish now status error) q.rows;
}

pub data Disposition : Type 0 where
  as_processed as_skipped : Disposition

abbrev pub disposition_status : Disposition → InboundEventStatus
disposition_status as_processed = processed
disposition_status as_skipped = skipped

unfoldable pub ack : ℕ → ℕ → Disposition → Queue → Queue
unfolding mark_terminal
ack now id disposition = mark_terminal now id (disposition_status disposition) none

unfoldable pub dead_letter : ℕ → ℕ → String → Queue → Queue
unfolding mark_terminal
dead_letter now id error = mark_terminal now id dead (some error)

abbrev pub postpone : ℕ → String → Row → Row
postpone at error r = record r {
  status = failed;
  next_attempt_at = at;
  locked_until = none;
  last_error = some error;
}

unfoldable pub retry_later : ℕ → ℕ → String → Queue → Queue
unfolding update_row
retry_later id at error q = record q { rows = update_row id (postpone at error) q.rows }

abbrev pub reopen : ℕ → Row → Row
reopen now r = record r {
  status = pending;
  next_attempt_at = now;
  attempts = 0;
  locked_until = none;
}

unfoldable pub requeue : ℕ → ℕ → Queue → Queue
unfolding update_row
requeue now id q = record q { rows = update_row id (reopen now) q.rows }

abbrev pub of_status : InboundEventStatus → List Row → List Row
of_status status [] = []
of_status status (r ∷ rs) =
    if status_eq r.status status then r ∷ of_status status rs else of_status status rs

abbrev pub insert_newest : Row → List Row → List Row
insert_newest r [] = r ∷ []
insert_newest r (s ∷ ss) = if leb s.id r.id then r ∷ s ∷ ss else s ∷ insert_newest r ss

abbrev pub newest_first : List Row → List Row
newest_first [] = []
newest_first (r ∷ rs) = insert_newest r (newest_first rs)

-- `WHERE status = … ORDER BY id DESC LIMIT …`
unfoldable pub list_by_status : InboundEventStatus → ℕ → Queue → List InboundEvent
list_by_status status limit q = map to_event (take limit (newest_first (of_status status q.rows)))
