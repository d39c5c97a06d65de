-- ===== src/Sync/Copying.antt =====
-- A payment of the internal system is copied to the provider once.
use qbo_invoice_sync.Common.{
  ℕ, ◌≡◌, ◌≢◌, refl, sym, ap, ◌∙◌, inl, inr, true, ◌&&◌, Option, none, some, is_some, List, [], ◌∷◌,
  ◌++◌, String, str_eq, str_eq_refl, Bool-cases, Option-cases,
}
use qbo_invoice_sync.Errors.{SyncError, Result, ok, err}
use qbo_invoice_sync.Action.{Action, ◌>>=◌, >>=-ok}
use qbo_invoice_sync.Json.{Fields}
use qbo_invoice_sync.Audit.{AuditEntry, skipped_duplicate}
use qbo_invoice_sync.Queue.{InboundEvent}
use qbo_invoice_sync.Ledger.{InternalInvoice, PaymentRow, Fresh}
use qbo_invoice_sync.Links.{
  EntityLink, EntityType, payment_entity, invoice_entity, entity_eq, has_entity, NewLink, Links,
  find_internal, link_taken, link_row, create_link,
}
use qbo_invoice_sync.Worker.{ok_outcome, skip_outcome, SyncOutcome}
use qbo_invoice_sync.Sync.{World, Env, SkipAction, write_audit, skip, finish_ok, in_links}
use qbo_invoice_sync.Sync.Payments.{
  copy_payment, copy_if_invoice, copy_if_found, copy_if_new, process_internal_payment,
}

entity_eq_refl : (e : EntityType) → entity_eq e e ≡ true
entity_eq_refl invoice_entity = refl
entity_eq_refl payment_entity = refl

-- A link that was made is found by its internal id.
find_internal-append :
    (p : String) (e : EntityType) (id : String) (ks : List EntityLink) (k : EntityLink)
    → (has_entity p e k && str_eq k.internal_id id) ≡ true
    → is_some (find_internal p e id (ks ++ (k ∷ []))) ≡ true
unfolding find_internal
find_internal-append p e id [] k h = rw h
find_internal-append p e id (j ∷ js) k h =
    elim (Bool-cases (has_entity p e j && str_eq j.internal_id id)) [
      | inl hit ↦ rw hit
      | inr miss ↦ rw miss (find_internal-append p e id js k h)
    ]

create_link-found :
    (db_now : ℕ) (k : NewLink) (s u : Links) {j : EntityLink}
    → create_link db_now k s ≡ (ok j, u)
    → is_some (find_internal k.provider k.entity_type k.internal_id u.rows) ≡ true
unfolding create_link
create_link-found db_now k s u e = elim (Bool-cases (link_taken k s.rows)) [
  | inl taken ↦ let f = rw taken at e in absurd (cc)
  | inr free ↦
      let f = rw free at e in
      ap (λ p. is_some (find_internal k.provider k.entity_type k.internal_id p.1.rows)) (sym f)
      ∙ find_internal-append k.provider k.entity_type k.internal_id s.rows
          (link_row s.next_id db_now k)
          (rw (str_eq_refl k.provider, entity_eq_refl k.entity_type) (str_eq_refl k.internal_id))
]

module _ {P : Type 0} (env : Env P) (event : InboundEvent) where
  -- The payment of the event has a link.
  abbrev Copied : World P → Type 0
  Copied w =
      is_some (find_internal env.provider.name payment_entity event.entity_id w.links.rows) ≡ true

  finish_ok-links :
      (entry : AuditEntry) (w u : World P) {o : SyncOutcome}
      → finish_ok env entry w ≡ (ok o, u)
      → u.links ≡ w.links
  unfolding write_audit ◌>>=◌
  finish_ok-links entry w u e = sym (ap (λ p. p.1.links) e)

  skip-kind :
      (action : SkipAction) (detail : Fields) (w u : World P) (o : SyncOutcome)
      → skip env event action detail w ≡ (ok o, u)
      → o.kind ≢ ok_outcome
  unfolding skip write_audit ◌>>=◌
  skip-kind action detail w u o e k = let f = outcome-eq e in skip_ok (ap (λ x. x.kind) f ∙ k)
    where
      outcome-eq :
          {a b : SyncOutcome} {x y : World P}
          → ◌≡◌ {A = Result SyncOutcome × World P} (ok a, x) (ok b, y)
          → a ≡ b
      outcome-eq e = cc

      skip_ok : skip_outcome ≡ ok_outcome → ⊥
      skip_ok e = cc

  in_links-ok :
      {A : Type 0} (f : Fresh → Action Links A) (w u : World P) {a : A}
      → in_links env f w ≡ (ok a, u)
      → f (env.fresh w.ops) w.links ≡ (ok a, u.links)
  unfolding in_links
  in_links-ok f w u e = λ i. ((e i).0, (e i).1.links)

  copy_payment-Copied :
      (p : PaymentRow) (invoice : InternalInvoice) (k : Option EntityLink) (w u : World P)
      {o : SyncOutcome}
      → copy_payment env event p invoice k w ≡ (ok o, u)
      → Copied u
  unfolding copy_payment
  copy_payment-Copied p invoice none w u e = absurd (raised e)
    where
      raised :
          {x : SyncError} {o : SyncOutcome} {a b : World P}
          → ◌≡◌ {A = Result SyncOutcome × World P} (err x, a) (ok o, b)
          → ⊥
      raised e = cc
  copy_payment-Copied p invoice (some link) w u e =
      let (existing, w1, e1, r1) = >>=-ok _ _ w e in
      let (found, w2, e2, r2) = >>=-ok _ _ w1 r1 in
      let (made, w3, e3, r3) = >>=-ok _ _ w2 r2 in
      ap (λ x. is_some (find_internal env.provider.name payment_entity event.entity_id x.rows))
        (finish_ok-links _ w3 u r3)
      ∙ create_link-found _ _ w2.links w3.links (in_links-ok _ w2 w3 e3)

  process_internal_payment-Copied :
      (w u : World P) (o : SyncOutcome)
      → process_internal_payment env event w ≡ (ok o, u)
      → o.kind ≡ ok_outcome
      → Copied u
  unfolding process_internal_payment
  process_internal_payment-Copied w u o e applied =
      let (link, w1, e1, r1) = >>=-ok _ _ w e in new link w1 r1
    where
      invoice :
          (p : PaymentRow) (i : Option InternalInvoice) (w : World P)
          → copy_if_invoice env event p i w ≡ (ok o, u)
          → Copied u
      invoice p none w e = absurd (skip-kind SkipAction.stale _ w u o e applied)
      invoice p (some i) w e =
          let (k, w1, e1, r1) = >>=-ok _ _ w e in copy_payment-Copied p i k w1 u r1

      payment :
          (p : Option PaymentRow) (w : World P) → copy_if_found env event p w ≡ (ok o, u) → Copied u
      payment none w e = absurd (skip-kind SkipAction.stale _ w u o e applied)
      payment (some p) w e = let (i, w1, e1, r1) = >>=-ok _ _ w e in invoice p i w1 r1

      new : (k : Option EntityLink) (w : World P) → copy_if_new env event k w ≡ (ok o, u) → Copied u
      new (some k) w e = absurd (skip-kind SkipAction.duplicate _ w u o e applied)
      new none w e = let (p, w1, e1, r1) = >>=-ok _ _ w e in payment p w1 r1

  process_internal_payment-skips :
      (w : World P)
      → Copied w
      → let (r, u) = process_internal_payment env event w in
        (r ≡ ok (record { kind = skip_outcome; action = skipped_duplicate }))
        × (u.ledger ≡ w.ledger)
        × (u.links ≡ w.links)
        × (u.remote ≡ w.remote)
  unfolding process_internal_payment in_links ◌>>=◌ skip write_audit
  process_internal_payment-skips w h =
      elim (Option-cases
        (find_internal env.provider.name payment_entity event.entity_id w.links.rows)) [
          | inl nothing ↦ let f = rw nothing at h in absurd (cc)
          | inr (k, found) ↦ rw found (refl, refl, refl, refl)
        ]

-- A payment is copied to the provider once: after an event copied it, any event of that payment, in
-- any later state where the lookup of its link answers as it did then, is skipped as a duplicate,
-- and changes no record of either system and no link.
pub payment_copied_once :
    {P : Type 0} (env : Env P) (event again : InboundEvent) (w w' u : World P) (o : SyncOutcome)
    → process_internal_payment env event w ≡ (ok o, w')
    → o.kind ≡ ok_outcome
    → find_internal env.provider.name payment_entity again.entity_id u.links.rows
      ≡ find_internal env.provider.name payment_entity event.entity_id w'.links.rows
    → ((process_internal_payment env again u).0
        ≡ ok (record { kind = skip_outcome; action = skipped_duplicate }))
      × ((process_internal_payment env again u).1.ledger ≡ u.ledger)
      × ((process_internal_payment env again u).1.links ≡ u.links)
      × ((process_internal_payment env again u).1.remote ≡ u.remote)
payment_copied_once env event again w w' u o done applied kept =
    process_internal_payment-skips env again u
      (ap is_some kept ∙ process_internal_payment-Copied env event w w' o done applied)
