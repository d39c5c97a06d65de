-- ===== src/Queue/Recovery.antt =====
-- A worker that dies loses nothing: when its lease has run out, the event is due again.
use qbo_invoice_sync.Common.{
  ℕ, ◌+◌, ◌≤◌, ◌≡◌, sym, ap, subst, ◌∙◌, Bool, true, false, some, arith, All-In,
}
use qbo_invoice_sync.Queue.{Row, InboundEvent, Queue, is_due, claim}
use qbo_invoice_sync.Queue.Claim.{claim-Claimed, claim_finds}
use qbo_invoice_sync.Queue.Invariant.{IsValid, Step, Reach, Reach-trans}
use qbo_invoice_sync.Queue.Invariant
use qbo_invoice_sync.Queue.History.{Reach-In}
use qbo_invoice_sync.Queue.Lease.{
  LeasedRow, Meanwhile, published, claimed, acked, dead_lettered, postponed, requeued, Passes,
  start, next, Passes-Leased, claim-starts-lease,
}

module _ (id until : ℕ) where
  Meanwhile-Step : (q u : Queue) → Meanwhile id until q u → Step q u
  Meanwhile-Step q u (published now e p) = Invariant.Step.published now e p
  Meanwhile-Step q u (claimed now lease_ms held b p) = Invariant.Step.claimed now lease_ms held p
  Meanwhile-Step q u (acked now other d ne p) = Invariant.Step.acked now other d p
  Meanwhile-Step q u (dead_lettered now other error ne p) =
      Invariant.Step.dead_lettered now other error p
  Meanwhile-Step q u (postponed other at error ne p) = Invariant.Step.postponed other at error p
  Meanwhile-Step q u (requeued now other ne p) = Invariant.Step.requeued now other p

  Passes-Reach : {q u : Queue} → Passes id until q u → Reach q u
  Passes-Reach start = Invariant.Reach.start
  Passes-Reach (next {t} {u} r s) = Invariant.Reach.next (Passes-Reach r) (Meanwhile-Step t u s)

expired-due :
    (id until now : ℕ) (r : Row)
    → LeasedRow id until r
    → r.id ≡ id
    → until ≤ now
    → is_due now r ≡ true
expired-due id until now r h same after =
    let (s, l) = h same in rw (s, is_due) (rw (l, is_due) (ground arith))

-- A worker that dies loses nothing: once its lease has run out, a claim with the event's row free
-- finds an event, and one with no greater id; so the event itself comes up when those before it
-- are done.
pub lease_recovers :
    (now lease_ms : ℕ) (held : ℕ → Bool) (q q' u : Queue) (e : InboundEvent)
    → IsValid q
    → claim now lease_ms held q ≡ (q', some e)
    → Passes e.id (now + lease_ms) q' u
    → (later lease' : ℕ) (held' : ℕ → Bool) → now + lease_ms ≤ later
    → held' e.id ≡ false
    → (e' : InboundEvent) × ((claim later lease' held' u).1 ≡ some e') × (e'.id ≤ e.id)
lease_recovers now lease_ms held q q' u e v h passes later lease' held' after free =
    let until = now + lease_ms in
    let l = Passes-Leased e.id until passes (claim-starts-lease now lease_ms held q v h) in
    let c = claim-Claimed now lease_ms held q h in
    let id_in_q : c.row.id ≡ e.id = sym (ap (λ x. x.id) c.event) in
    let claimed_step : Step q q' =
      Invariant.Step.claimed now lease_ms held (sym (ap (λ p. p.0) h)) in
    let reach =
      Reach-trans (Invariant.Reach.next Invariant.Reach.start claimed_step)
        (Passes-Reach e.id until passes) in
    let (r, m, same) = Reach-In reach c.first.present in
    let id_in_u : r.id ≡ e.id = ap (λ n. n.id) same ∙ id_in_q in
    let due =
      expired-due e.id until later r (All-In (LeasedRow e.id until) r u.rows l.rows m) id_in_u
        after in
    let (e', found, le) = claim_finds later lease' held' u r m due (ap held' id_in_u ∙ free) in
    (e', found, subst (λ n. e'.id ≤ n) id_in_u le)
