-- ===== src/Controllers.antt =====
-- The HTTP handlers (src/controllers/), and what src/server.ts makes of an exception.
pub mod Webhooks
pub mod Invoices
use qbo_invoice_sync.Common.{ℕ, String, str_eq, Option, none, some, if◌then◌else◌}
use qbo_invoice_sync.Json.{Json, obj, Fields, end, field}
use qbo_invoice_sync.Errors.{SyncError, Result, ok, err}

-- An answer: a status with a value, or with `{ error }`.
pub data HttpReply (B : Type 0) : Type 0 where
  sent : (code : ℕ) → B → HttpReply B
  failure : (code : ℕ) → (message : String) → HttpReply B

-- The error handler of src/server.ts: 400 for a body that its schema refuses, which is no value here,
-- 500 for any other exception.
abbrev pub invalid : {B : Type 0} → HttpReply B
invalid = failure 400 "validation failed"

abbrev pub respond : {B S : Type 0} → Result (HttpReply B) × S → HttpReply B × S
respond (ok reply, s) = (reply, s)
respond (err e, s) = (failure 500 e.message, s)

-- A property of a JSON object; `JSON.parse` leaves one of each name.
unfoldable pub property : String → Fields → Option Json
property name end = none
property name (field k v fs) = if str_eq k name then some v else property name fs

abbrev pub fields_of : Json → Option Fields
fields_of (obj fs) = some fs
fields_of _ = none
