-- ===== src/Queue/Claim.antt =====
-- `claim`: which event it hands out, what it changes, and when it finds nothing.
use qbo_invoice_sync.Common.{
  In, here, there, All-In, ℕ, ◌≤◌, ◌≡◌, ◌↔◌, refl, sym, ap, subst, Bool, true, false, not, ◌&&◌,
  none, some, List, [], ◌∷◌, arith, leb, All, All-map, inl, inr, Bool-cases, Option-cases,
}
use qbo_invoice_sync.Queue.{
  Row, InboundEvent, Queue, to_event, is_due, select_due, update_row, take_lease, claim,
}
use qbo_invoice_sync.Queue.Rows.{IsFirstDue, NoneDue}

le_step : {a b c : ℕ} → leb a b ≡ true → b ≤ c → a ≤ c
le_step h k = ground arith

gt_step : {a b : ℕ} → leb a b ≡ false → b ≤ a
gt_step h = ground arith

module _ (now : ℕ) (held : ℕ → Bool) where
  select_due-none : (rs : List Row) → select_due now held rs ≡ none → NoneDue now held rs
  unfolding select_due
  select_due-none [] e = tt
  select_due-none (r ∷ rs) e = elim (Bool-cases (is_due now r && not (held r.id))) [
    | inl due ↦ let f = rw (due, select_due) at e in cc
    | inr idle ↦ (idle, select_due-none rs (rw (idle, select_due) at e))
  ]

  -- Where nothing is due, anything is least.
  least_of_NoneDue :
      (n : ℕ) (rs : List Row)
      → NoneDue now held rs
      → All (λ s. (is_due now s && not (held s.id)) ≡ true → n ≤ s.id) rs
  least_of_NoneDue n rs h = All-map (λ s idle due. absurd (cc)) rs h

  first-here :
      (r : Row) (rs : List Row)
      → (is_due now r && not (held r.id)) ≡ true
      → All (λ s. (is_due now s && not (held s.id)) ≡ true → r.id ≤ s.id) rs
      → IsFirstDue now held (r ∷ rs) r
  first-here r rs due least = record {
    present = here refl;
    due = ground arith;
    free = ground arith;
    least = (λ _. omega arith, least);
  }

  first-there :
      (r m : Row) (rs : List Row)
      → ((is_due now r && not (held r.id)) ≡ true → m.id ≤ r.id)
      → IsFirstDue now held rs m
      → IsFirstDue now held (r ∷ rs) m
  first-there r m rs le f = record {
    present = there f.present;
    due = f.due;
    free = f.free;
    least = (le, f.least);
  }

  pub select_due-some :
      (rs : List Row) (r : Row) → select_due now held rs ≡ some r → IsFirstDue now held rs r
  unfolding select_due
  select_due-some [] r e = cc
  select_due-some (s ∷ rs) r e = elim (Bool-cases (is_due now s && not (held s.id))) [
    | inr idle ↦
        first-there s r rs (λ due. absurd (cc)) (select_due-some rs r (rw (idle, select_due) at e))
    | inl due ↦ elim (Option-cases (select_due now held rs)) [
      | inl nothing ↦
          let q : s ≡ r = ground arith in
          subst (IsFirstDue now held (s ∷ rs)) q
            (first-here s rs due (least_of_NoneDue s.id rs (select_due-none rs nothing)))
      | inr (m, found) ↦
          let f = select_due-some rs m found in
          elim (Bool-cases (leb s.id m.id)) [
            | inl le ↦
                let q : s ≡ r = ground arith in
                subst (IsFirstDue now held (s ∷ rs)) q
                  (first-here s rs due (All-map (λ t g d. le_step le (g d)) rs f.least))
            | inr gt ↦
                let q : m ≡ r = ground arith in
                subst (IsFirstDue now held (s ∷ rs)) q (first-there s m rs (λ _. gt_step gt) f)
          ]
    ]
  ]

some_inj {ℓ} : {A : Type ℓ} {a b : A} → some a ≡ some b → a ≡ b
some_inj e = cc

clash : (a b : Bool) → a ≡ true → b ≡ false → (a && not b) ≡ false → ⊥
clash a b p q r = ground arith

-- What a successful claim has done.
pub record Claimed (now lease_ms : ℕ) (held : ℕ → Bool) (q : Queue) (q' : Queue) (e : InboundEvent)
    : Type 0 where
  pub row : Row
  pub first : IsFirstDue now held q.rows row
  pub event : e ≡ to_event (take_lease now lease_ms row)
  pub rows : q'.rows ≡ update_row row.id (take_lease now lease_ms) q.rows
  pub next_id : q'.next_id ≡ q.next_id

module _ (now lease_ms : ℕ) (held : ℕ → Bool) (q : Queue) where
  -- A claim that returns an event has taken the due row with the least id that no other
  -- transaction holds: it is due (pending or failed and its time has come, or in flight with an
  -- expired lease), the event shows one more attempt, and no other row changes.
  pub claim-Claimed :
      {q' : Queue} {e : InboundEvent}
      → claim now lease_ms held q ≡ (q', some e)
      → Claimed now lease_ms held q q' e
  unfolding claim
  claim-Claimed {q'} {e} h = elim (Option-cases (select_due now held q.rows)) [
    | inl nothing ↦ let f = rw (nothing, claim) at h in absurd (cc)
    | inr (r, found) ↦
        let f = rw (found, claim) at h in
        record {
          row = r;
          first = select_due-some now held q.rows r found;
          event = sym (some_inj (ap (λ p. p.1) f));
          rows = sym (ap (λ p. p.0.rows) f);
          next_id = sym (ap (λ p. p.0.next_id) f);
        }
  ]

  -- A claim returns nothing exactly when no row that is free is due, and then changes nothing.
  pub claim-none_iff : (claim now lease_ms held q ≡ (q, none)) ↔ NoneDue now held q.rows
  unfolding claim
  claim-none_iff = elim (Option-cases (select_due now held q.rows)) [
    | inl nothing ↦ (λ h. select_due-none now held q.rows nothing, λ idle. rw (nothing, claim))
    | inr (r, found) ↦ (
      λ h. let f = rw (found, claim) at h in let g = ap (λ p. p.1) f in absurd (cc),
      λ idle.
          let first = select_due-some now held q.rows r found in
          let no_due = All-In _ r q.rows idle first.present in
          let d = first.due in let n = first.free in absurd (clash _ _ d n no_due),
    )
  ]

-- A claim finds something if a free row is due.
pub claim_finds :
    (now lease_ms : ℕ) (held : ℕ → Bool) (q : Queue) (r : Row)
    → In r q.rows
    → is_due now r ≡ true
    → held r.id ≡ false
    → (e : InboundEvent) × ((claim now lease_ms held q).1 ≡ some e) × (e.id ≤ r.id)
unfolding claim
claim_finds now lease_ms held q r m due free = elim (Option-cases (select_due now held q.rows)) [
  | inl nothing ↦
      absurd (clash _ _ due free (All-In _ r q.rows (select_due-none now held q.rows nothing) m))
  | inr (s, found) ↦
      let first = select_due-some now held q.rows s found in
      let both : (is_due now r && not (held r.id)) ≡ true = rw (due, free) in
      (
        to_event (take_lease now lease_ms s),
        rw (found, claim),
        All-In _ r q.rows first.least m both,
      )
]

pub claim_idle :
    (now lease_ms : ℕ) (held : ℕ → Bool) (q : Queue)
    → (claim now lease_ms held q).1 ≡ none
    → claim now lease_ms held q ≡ (q, none)
unfolding claim
claim_idle now lease_ms held q h = elim (Option-cases (select_due now held q.rows)) [
  | inl nothing ↦ rw (nothing, claim)
  | inr (r, found) ↦ let f = rw (found, claim) at h in absurd (cc)
]
