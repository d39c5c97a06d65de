-- ===== src/Controllers/Webhooks/Changes.antt =====
-- Internal notifications that are delivered again (src/controllers/webhookController.ts).
use mathlib.Core.Bool.{false≢true}
use qbo_invoice_sync.Common.{
  ℕ, ◌≡◌, ◌↔◌, refl, sym, ap, subst, ◌∙◌, inl, inr, true, false, not, some, is_some, Option-cases,
  List, [], ◌∷◌, ◌++◌, String, In, here, there, In-concat, arith,
}
use qbo_invoice_sync.Action.{◌>>=◌}
use qbo_invoice_sync.Json.{Json}
use qbo_invoice_sync.Invoice.{Date}
use qbo_invoice_sync.Queue.{Row, IngestEventInput, Queue, has_key, new_row, publish}
use qbo_invoice_sync.Queue.Publish.{
  KeyTaken, has_key-KeyTaken, has_key_of_In, publish_cases, publish-none_iff,
}
use qbo_invoice_sync.Controllers.{HttpReply, sent}
use qbo_invoice_sync.Controllers.Webhooks.{
  InternalChangeEvent, parse_internal, internal_key, internal_input, publish_event, handle_internal,
  Accepted,
}
use qbo_invoice_sync.Controllers.Webhooks.Keys.{SameChange, internal_key-eq_iff}

last_row :
    (key : String) (rs : List Row) (r s : Row)
    → has_key key rs ≡ false
    → In s (rs ++ (r ∷ []))
    → s.dedupe_key ≡ key
    → r.dedupe_key ≡ key
last_row key [] r s free (here e) at = ap (λ x. x.dedupe_key) (sym e) ∙ at
last_row key [] r s free (there m) at = elim m [ ]
last_row key (x ∷ rs) r s free (here e) at = absurd (
    false≢true
      (sym free ∙ has_key_of_In key x (x ∷ rs) (here refl) (ap (λ y. y.dedupe_key) (sym e) ∙ at)))
last_row key (x ∷ rs) r s free (there m) at = last_row key rs r s (has_key-rest key x rs free) m at
  where
    has_key-rest :
        (key : String) (x : Row) (rs : List Row)
        → has_key key (x ∷ rs) ≡ false
        → has_key key rs ≡ false
    has_key-rest key x rs h = unfold has_key in ground arith

-- The row that a first delivery of a change adds is the only one that makes its key taken.
KeyTaken-after :
    (now : ℕ) (event : IngestEventInput) (q : Queue) (key : String)
    → has_key key q.rows ≡ false
    → KeyTaken key (publish now event q).0.rows
    → event.dedupe_key ≡ key
KeyTaken-after now event q key free t = elim (publish_cases now event q) [
  | inl (taken, same) ↦
      let u : KeyTaken key q.rows = subst (λ r. KeyTaken key r.0.rows) same t in
      absurd (false≢true (sym free ∙ has_key_of_In key u.row q.rows u.present u.same))
  | inr (fresh, same) ↦
      let u : KeyTaken key (q.rows ++ (new_row q.next_id now event ∷ [])) =
        subst (λ r. KeyTaken key r.0.rows) same t in
      last_row key q.rows (new_row q.next_id now event) u.row free u.present u.same
]

-- A published event has its key taken.
taken-after :
    (now : ℕ) (event : IngestEventInput) (q : Queue)
    → KeyTaken event.dedupe_key (publish now event q).0.rows
taken-after now event q = elim (publish_cases now event q) [
  | inl (taken, same) ↦ rw same (has_key-KeyTaken event.dedupe_key q.rows taken)
  | inr (fresh, same) ↦
      rw same
        (record { row = new_row q.next_id now event; present = In-concat q.rows _; same = refl })
]

module _ (parse_date : String → Date) where
  handle_internal-accepted :
      (now : ℕ) (body : Json) (e : InternalChangeEvent) (q : Queue)
      → parse_internal body ≡ some e
      → is_some (parse_date e.occurred_at) ≡ true
      → let (after, inserted) = publish now (internal_input parse_date now e) q in
        handle_internal parse_date now body q
        ≡ (sent 200 (record { accepted = true; duplicate = not (is_some inserted) }), after)
  unfolding handle_internal publish_event ◌>>=◌
  handle_internal-accepted now body e q parsed dated = rw (parsed, handle_internal) (rw dated refl)

  -- Whether a notification is told to be a duplicate, by its key.
  duplicate_iff :
      (now : ℕ) (body : Json) (e : InternalChangeEvent) (q : Queue)
      → parse_internal body ≡ some e
      → is_some (parse_date e.occurred_at) ≡ true
      → ((handle_internal parse_date now body q).0
          ≡ sent 200 (record { accepted = true; duplicate = true }))
        ↔ KeyTaken (internal_key e) q.rows
  duplicate_iff now body e q parsed dated =
      let input = internal_input parse_date now e in
      let whole = handle_internal-accepted now body e q parsed dated in
      let by_key = publish-none_iff now input q in
      elim (Option-cases (publish now input q).1) [
        | inl nothing ↦ (λ _. by_key.0 nothing, λ _. ap (λ x. x.0) whole ∙ rw nothing refl)
        | inr (row, found) ↦ (
          λ h. absurd (
              let same = sym h ∙ ap (λ x. x.0) whole in
              let clash = rw found at same in false≢true (flag-eq clash)),
          λ t. absurd (let clash = by_key.1 t in cc),
        )
      ]
    where
      flag-eq :
          ◌≡◌ {A = HttpReply Accepted}
            (sent 200 (record { accepted = true; duplicate = true }))
            (sent 200 (record { accepted = true; duplicate = false }))
          → false ≡ true
      flag-eq h = cc

-- Of two internal notifications, the second of a change that the inbox does not have yet, the second
-- is told to be a duplicate exactly when both tell of the same change: a retry is recognised, and a
-- new version is let through. Both bodies pass the schema and have dates that are valid.
pub redelivered_iff :
    (parse_date : String → Date) (now later : ℕ) (first second : Json) (e f : InternalChangeEvent)
    (q : Queue)
    → parse_internal first ≡ some e
    → parse_internal second ≡ some f
    → is_some (parse_date e.occurred_at) ≡ true
    → is_some (parse_date f.occurred_at) ≡ true
    → has_key (internal_key f) q.rows ≡ false
    → ((handle_internal parse_date later second (handle_internal parse_date now first q).1).0
        ≡ sent 200 (record { accepted = true; duplicate = true }))
      ↔ SameChange e f
redelivered_iff parse_date now later first second e f q parsed parsed_too dated dated_too free =
    let input = internal_input parse_date now e in
    let after = (publish now input q).0 in
    let left = ap (λ x. x.1) (handle_internal-accepted parse_date now first e q parsed dated) in
    let again = duplicate_iff parse_date later second f after parsed_too dated_too in
    subst
      (λ u.
        ((handle_internal parse_date later second u).0
          ≡ sent 200 (record { accepted = true; duplicate = true }))
        ↔ SameChange e f)
      (sym left)
      (
        λ h.
            (internal_key-eq_iff e f).0
              (KeyTaken-after now input q (internal_key f) free (again.0 h)),
        λ c. again.1 (
            subst (λ k. KeyTaken k after.rows) ((internal_key-eq_iff e f).1 c)
              (taken-after now input q)),
      )
