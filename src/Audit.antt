-- ===== src/Audit.antt =====
-- The audit log: `AuditEntry` of src/models/repositories/types.ts and the append-only table behind
-- src/models/repositories/auditRepository.ts.
use qbo_invoice_sync.Common.{ℕ, ◌+◌, Option, List, [], ◌∷◌, ◌++◌, String, take, leb, if◌then◌else◌}
use qbo_invoice_sync.Json.{Json}

pub data AuditAction : Type 0 where
  applied applied_divergent skipped_echo skipped_stale skipped_duplicate skipped_noop : AuditAction
  conflict_lww recovered_orphan_write linked_existing failed : AuditAction

pub record AuditEntry : Type 0 where
  pub inbound_event_id : Option ℕ
  pub entity_type : String
  pub internal_id : Option String
  pub external_id : Option String
  pub action : AuditAction
  pub detail : Option Json

pub record AuditRow : Type 0 where
  pub id : ℕ
  pub entry : AuditEntry
  pub created_at : ℕ

pub record AuditLog : Type 0 where
  pub rows : List AuditRow
  pub next_id : ℕ

-- `INSERT INTO audit_log`, at `now` of the database's clock
unfoldable pub record_entry : ℕ → AuditEntry → AuditLog → AuditLog
record_entry now entry log = record {
  rows = log.rows ++ (record { id = log.next_id; entry = entry; created_at = now } ∷ []);
  next_id = log.next_id + 1;
}

abbrev pub insert_newest : AuditRow → List AuditRow → List AuditRow
insert_newest r [] = r ∷ []
insert_newest r (s ∷ ss) = if leb s.id r.id then r ∷ s ∷ ss else s ∷ insert_newest r ss

abbrev pub newest_first : List AuditRow → List AuditRow
newest_first [] = []
newest_first (r ∷ rs) = insert_newest r (newest_first rs)

-- `ORDER BY id DESC LIMIT …`
unfoldable pub list_entries : ℕ → AuditLog → List AuditRow
list_entries limit log = take limit (newest_first log.rows)
