-- ===== src/Queue/Lease.antt =====
-- Leases: while one runs nobody else gets the event, and when it has run out the event is due again.
use qbo_invoice_sync.Common.{
  ℕ, ◌+◌, ◌<◌, ◌≡◌, ◌≢◌, refl, sym, ap, ◌∙◌, inl, inr, Bool, true, some, String, arith, leb, All,
  All-append, All-In, Option-cases,
}
use qbo_invoice_sync.Queue.{
  in_flight, Row, InboundEvent, IngestEventInput, Queue, is_due, publish, select_due, update_row,
  claim, Disposition, ack, dead_letter, retry_later, requeue,
}
use qbo_invoice_sync.Queue.Rows.{update_row-All_at}
use qbo_invoice_sync.Queue.Publish.{publish_cases}
use qbo_invoice_sync.Queue.Claim.{claim-Claimed, select_due-some}
use qbo_invoice_sync.Queue.Invariant.{IsValid}

-- The event is in flight, with a lease that ends at `until`.
abbrev pub LeasedRow : ℕ → ℕ → Row → Type 0
LeasedRow id until r = r.id ≡ id → (r.status ≡ in_flight) × (r.locked_until ≡ some until)

pub record Leased (id until : ℕ) (q : Queue) : Type 0 where
  pub taken : id < q.next_id
  pub rows : All (LeasedRow id until) q.rows

-- What may happen while the holder of the lease is at work: anything but an operation on its event
-- (which is the holder's to do), with claims at times before the end of the lease.
pub data Meanwhile (id until : ℕ) (q : Queue) (u : Queue) : Type 0 where
  published : (now : ℕ) (e : IngestEventInput) → u ≡ (publish now e q).0 → Meanwhile id until q u
  claimed :
      (now lease_ms : ℕ) (held : ℕ → Bool)
      → now < until
      → u ≡ (claim now lease_ms held q).0
      → Meanwhile id until q u
  acked :
      (now other : ℕ) (d : Disposition)
      → other ≢ id
      → u ≡ ack now other d q
      → Meanwhile id until q u
  dead_lettered :
      (now other : ℕ) (error : String)
      → other ≢ id
      → u ≡ dead_letter now other error q
      → Meanwhile id until q u
  postponed :
      (other at : ℕ) (error : String)
      → other ≢ id
      → u ≡ retry_later other at error q
      → Meanwhile id until q u
  requeued : (now other : ℕ) → other ≢ id → u ≡ requeue now other q → Meanwhile id until q u

pub data Passes (id until : ℕ) (q : Queue) : Queue → Type 0 where
  start : Passes id until q q
  next : {t u : Queue} → Passes id until q t → Meanwhile id until t u → Passes id until q u

module _ (id until : ℕ) where
  -- A row that is due before the end of the lease is another one.
  due-other :
      (now : ℕ) (r : Row) → LeasedRow id until r → now < until → is_due now r ≡ true → r.id ≢ id
  due-other now r h before due e =
      let (s, l) = h e in let d : leb until now ≡ true = rw (s, l, is_due) at due in ground arith

  update-Leased :
      (other : ℕ) (f : Row → Row) (q : Queue)
      → ((r : Row) → (f r).id ≡ r.id)
      → other ≢ id
      → Leased id until q
      → Leased id until (record q { rows = update_row other f q.rows })
  update-Leased other f q same ne h = record {
    taken = h.taken;
    rows =
        update_row-All_at (LeasedRow id until) other f q.rows
          (λ r at _ e. absurd (ne (sym at ∙ sym (same r) ∙ e)))
          (λ r _ m. All-In (LeasedRow id until) r q.rows h.rows m);
  }

  publish-Leased :
      (now : ℕ) (e : IngestEventInput) (q : Queue)
      → Leased id until q
      → Leased id until (publish now e q).0
  publish-Leased now e q h = elim (publish_cases now e q) [
    | inl (_, same) ↦ rw same (record { taken = le_suc h.taken; rows = h.rows })
    | inr (_, more) ↦ rw more (record {
      taken = le_suc h.taken;
      rows = All-append (LeasedRow id until) q.rows _ h.rows (λ e. absurd (lt_ne h.taken e), tt);
    })
  ]
    where
      le_suc : {a b : ℕ} → a < b → a < b + 1
      le_suc k = omega arith

      lt_ne : {a b : ℕ} → a < b → b ≡ a → ⊥
      lt_ne k e = omega arith

  -- The claim of another event.
  claim-Leased :
      (now lease_ms : ℕ) (held : ℕ → Bool) (q : Queue)
      → now < until
      → Leased id until q
      → Leased id until (claim now lease_ms held q).0
  unfolding claim
  claim-Leased now lease_ms held q before h = elim (Option-cases (select_due now held q.rows)) [
    | inl nothing ↦ rw (nothing, claim) h
    | inr (r, found) ↦
        let first = select_due-some now held q.rows r found in
        let ne = due-other now r (All-In _ r q.rows h.rows first.present) before first.due in
        rw (found, claim) (update-Leased r.id _ q (λ s. refl) ne h)
  ]

  Meanwhile-Leased : (q u : Queue) → Meanwhile id until q u → Leased id until q → Leased id until u
  unfolding ack dead_letter retry_later requeue
  Meanwhile-Leased q u (published now e p) h = rw p (publish-Leased now e q h)
  Meanwhile-Leased q u (claimed now lease_ms held b p) h =
      rw p (claim-Leased now lease_ms held q b h)
  Meanwhile-Leased q u (acked now other d ne p) h = rw p (update-Leased other _ q (λ r. refl) ne h)
  Meanwhile-Leased q u (dead_lettered now other error ne p) h =
      rw p (update-Leased other _ q (λ r. refl) ne h)
  Meanwhile-Leased q u (postponed other at error ne p) h =
      rw p (update-Leased other _ q (λ r. refl) ne h)
  Meanwhile-Leased q u (requeued now other ne p) h = rw p (update-Leased other _ q (λ r. refl) ne h)

  pub Passes-Leased : {q u : Queue} → Passes id until q u → Leased id until q → Leased id until u
  Passes-Leased start h = h
  Passes-Leased (next {t} {u} r s) h = Meanwhile-Leased t u s (Passes-Leased r h)

pub claim-starts-lease :
    (now lease_ms : ℕ) (held : ℕ → Bool) (q : Queue) {q' : Queue} {e : InboundEvent}
    → IsValid q
    → claim now lease_ms held q ≡ (q', some e)
    → Leased e.id (now + lease_ms) q'
claim-starts-lease now lease_ms held q {q'} {e} v h =
    let c = claim-Claimed now lease_ms held q h in
    let same : e.id ≡ c.row.id = ap (λ x. x.id) c.event in
    record {
      taken = rw (same, c.next_id) (All-In _ c.row q.rows v.below c.first.present);
      rows =
          rw (c.rows, same)
            (update_row-All_at (LeasedRow c.row.id (now + lease_ms)) c.row.id _ q.rows
              (λ r at _ _. (refl, refl)) (λ r ne m at. absurd (ne at)));
    }

-- A lease is exclusive: once an event is claimed, and as long as only others act and the lease
-- runs, no claim returns that event.
pub lease_exclusive :
    (now lease_ms : ℕ) (held : ℕ → Bool) (q q' u : Queue) (e : InboundEvent)
    → IsValid q
    → claim now lease_ms held q ≡ (q', some e)
    → Passes e.id (now + lease_ms) q' u
    → (later lease' : ℕ) (held' : ℕ → Bool) (u' : Queue) (e' : InboundEvent)
    → later < now + lease_ms
    → claim later lease' held' u ≡ (u', some e')
    → e'.id ≢ e.id
lease_exclusive now lease_ms held q q' u e v h passes later lease' held' u' e' before again =
    let l =
      Passes-Leased e.id (now + lease_ms) passes (claim-starts-lease now lease_ms held q v h) in
    let c = claim-Claimed later lease' held' u again in
    let ne =
      due-other e.id (now + lease_ms) later c.row (All-In _ c.row u.rows l.rows c.first.present)
        before c.first.due in
    λ same. ne (sym (ap (λ x. x.id) c.event) ∙ same)
