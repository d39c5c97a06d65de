-- ===== src/QuickBooks/Client/Reports.antt =====
-- What an answer of the service, and a missing one, is taken for by
-- src/providers/quickbooks/qboClient.ts.
use qbo_invoice_sync.Common.{
  ℕ, ◌≤◌, ◌<◌, ◌≡◌, ◌≢◌, refl, sym, true, false, ◌||◌, ◌⊎◌, inl, inr, Bool-cases, Option, none,
  some, List, [], ◌∷◌, In, here, there, String, str_eq, str_eq_iff, leb, ◌==◌, arith,
}
use qbo_invoice_sync.Errors.{
  SyncError, plain_error, transient_provider_error, permanent_provider_error, stale_version_error,
  ambiguous_write_error, Result, ok, err,
}
use qbo_invoice_sync.QuickBooks.{Reply, Method, get_method, post_method, Answer, FaultJson}
use qbo_invoice_sync.QuickBooks.Auth.{is_ok_status, not_json}
use qbo_invoice_sync.QuickBooks.Client.{
  includes, parse_fault_codes, read_answer, read_body, service_busy, stale_token, rejected,
}

-- The request is refused: the status is neither of success nor of a service that is busy or failing.
abbrev pub IsRefusal : ℕ → Type 0
IsRefusal status = ((status < 200) ⊎ (299 < status)) × (status ≢ 429) × (status < 500)

-- What the answer to a request, or its lack, is reported as: one case for each line of the table
-- that the comments of the client and of src/providers/errors.ts describe.
pub data Reported (parse : List ℕ → Option FaultJson)
    : Method → Option Answer → Result (Option Reply) → Type 0 where
  read_lost :
      (e : SyncError) → e.kind ≡ transient_provider_error → Reported parse get_method none (err e)
  write_lost :
      (e : SyncError) → e.kind ≡ ambiguous_write_error → Reported parse post_method none (err e)
  done :
      {m : Method} (a : Answer) (reply : Reply)
      → 200 ≤ a.status
      → a.status ≤ 299
      → a.body ≡ some reply
      → Reported parse m (some a) (ok (some reply))
  garbled :
      {m : Method} (a : Answer) (e : SyncError)
      → 200 ≤ a.status
      → a.status ≤ 299
      → a.body ≡ none
      → e.kind ≡ plain_error
      → Reported parse m (some a) (err e)
  busy :
      {m : Method} (a : Answer) (e : SyncError)
      → (a.status ≡ 429) ⊎ (500 ≤ a.status)
      → e.kind ≡ transient_provider_error
      → Reported parse m (some a) (err e)
  stale :
      {m : Method} (a : Answer) (e : SyncError)
      → IsRefusal a.status
      → In "5010" (parse_fault_codes parse a.text)
      → e.kind ≡ stale_version_error
      → Reported parse m (some a) (err e)
  gone :
      {m : Method} (a : Answer)
      → IsRefusal a.status
      → includes "5010" (parse_fault_codes parse a.text) ≡ false
      → In "610" (parse_fault_codes parse a.text)
      → Reported parse m (some a) (ok none)
  refused :
      {m : Method} (a : Answer) (e : SyncError)
      → IsRefusal a.status
      → includes "5010" (parse_fault_codes parse a.text) ≡ false
      → includes "610" (parse_fault_codes parse a.text) ≡ false
      → e.kind ≡ permanent_provider_error
      → Reported parse m (some a) (err e)

includes-In : (code : String) (cs : List String) → includes code cs ≡ true → In code cs
unfolding includes
includes-In code [] h = cc
includes-In code (c ∷ cs) h = elim (Bool-cases (str_eq c code)) [
  | inl same ↦ here (sym ((str_eq_iff c code).0 same))
  | inr other ↦ there (includes-In code cs (rw other at h))
]

module _ (parse : List ℕ → Option FaultJson) (m : Method) (a : Answer) where
  read_body-Reported :
      (b : Option Reply)
      → a.body ≡ b
      → is_ok_status a.status ≡ true
      → Reported parse m (some a) (read_body b)
  read_body-Reported none body fine = garbled a not_json (ground arith) (ground arith) body refl
  read_body-Reported (some reply) body fine = done a reply (ground arith) (ground arith) body

  pub read_answer-Reported : Reported parse m (some a) (read_answer parse a)
  unfolding read_answer
  read_answer-Reported =
      let codes = parse_fault_codes parse a.text in
      elim (Bool-cases (is_ok_status a.status)) [
        | inl fine ↦ rw fine (read_body-Reported a.body refl fine)
        | inr bad ↦ rw bad (elim (Bool-cases (a.status == 429 || leb 500 a.status)) [
          | inl failing ↦ rw failing (
              busy a service_busy
                (elim (Bool-cases (a.status == 429)) [
                  | inl throttled ↦ inl (ground arith)
                  | inr other ↦ inr (ground arith)
                ])
                refl)
          | inr sound ↦
              let refusal : IsRefusal a.status = (
                elim (Bool-cases (leb 200 a.status)) [
                  | inl above ↦ inr (ground arith)
                  | inr below ↦ inl (ground arith)
                ],
                ground arith,
                ground arith,
              ) in
              rw sound (elim (Bool-cases (includes "5010" codes)) [
                | inl old ↦ rw old (stale a stale_token refusal (includes-In "5010" codes old) refl)
                | inr current ↦ rw current (elim (Bool-cases (includes "610" codes)) [
                  | inl missing ↦
                      rw missing (gone a refusal current (includes-In "610" codes missing))
                  | inr present ↦ rw present (refused a rejected refusal current present refl)
                ])
              ])
        ])
      ]
