-- ===== src/Sync/Echoes.antt =====
-- The notifications that the pipeline's own writes cause are recognised.
use qbo_invoice_sync.Common.{
  ℕ, ◌≡◌, refl, sym, ap, subst, ◌∙◌, inl, inr, true, Option, some, List, [], ◌∷◌, String, ◌==◌,
  text_eq_refl, Bool-cases, if◌then◌else◌,
}
use qbo_invoice_sync.Errors.{ok}
use qbo_invoice_sync.Action.{◌>>=◌, >>=-ok}
use qbo_invoice_sync.Audit.{skipped_echo, AuditEntry}
use qbo_invoice_sync.Invoice.{ComparableInvoice, to_comparable, snapshot_hash}
use qbo_invoice_sync.Resolver.{Apply, apply}
use qbo_invoice_sync.Queue.{InboundEvent}
use qbo_invoice_sync.Ledger.{InternalInvoice}
use qbo_invoice_sync.Ledger.Applying.{to_canonical}
use qbo_invoice_sync.Links.{EntityLink, Links, find_link, update_links}
use qbo_invoice_sync.Provider.{ExternalInvoiceState}
use qbo_invoice_sync.Worker.{SyncOutcome, skip_outcome}
use qbo_invoice_sync.Sync.{World, Env, write_audit, skip, finish_ok, in_links}
use qbo_invoice_sync.Sync.Resolving.{Sides, mark, apply_resolution}
use qbo_invoice_sync.Sync.Invoices.{from_internal, external_comparable, is_echo, compare_linked}

some_inj : {a b : EntityLink} → some a ≡ some b → a ≡ b
some_inj e = cc

find_link-update :
    (id : ℕ) (f : EntityLink → EntityLink) (ks : List EntityLink) (k : EntityLink)
    → ((j : EntityLink) → (f j).id ≡ j.id)
    → find_link id (update_links id f ks) ≡ some k
    → (j : EntityLink) × (k ≡ f j)
unfolding find_link update_links
find_link-update id f [] k same e = cc
find_link-update id f (j ∷ js) k same e = elim (Bool-cases (j.id == id)) [
  | inl hit ↦
      let still : ((f j).id == id) ≡ true = rw (same j) hit in
      (j, sym (some_inj (rw (hit, still) at e)))
  | inr miss ↦ find_link-update id f js k same (rw (miss, miss) at e)
]

-- The state of the side that a notification comes from.
abbrev pub event_side :
    InboundEvent → EntityLink → InternalInvoice → Option ExternalInvoiceState → ComparableInvoice
event_side event link internal state =
    if from_internal event
    then to_comparable (to_canonical internal)
    else external_comparable link (to_comparable (to_canonical internal)) state

module _ {P : Type 0} (env : Env P) where
  -- The link of that id, if there is one, holds the snapshot and its hash.
  abbrev Holds : ℕ → ComparableInvoice → Links → Type 0
  Holds id snapshot links =
      (k : EntityLink)
      → find_link id links.rows ≡ some k
      → k.last_synced_hash ≡ some (snapshot_hash env.sha256 snapshot)

  mark-Holds :
      (id : ℕ) (token : Option String) (version : ℕ) (snapshot : ComparableInvoice) (w u : World P)
      {x : Unit}
      → mark env id token version snapshot w ≡ (ok x, u)
      → Holds id snapshot u.links
  unfolding mark in_links
  mark-Holds id token version snapshot w u e k found =
      let (j, made) =
        find_link-update id _ w.links.rows k (λ j. refl)
          (ap (λ p. find_link id p.1.links.rows) e ∙ found) in
      ap (λ z. z.last_synced_hash) made

  finish_ok-links :
      (entry : AuditEntry) (w u : World P) {o : SyncOutcome}
      → finish_ok env entry w ≡ (ok o, u)
      → u.links ≡ w.links
  unfolding write_audit ◌>>=◌
  finish_ok-links entry w u e = sym (ap (λ p. p.1.links) e)

  apply_resolution-Holds :
      (event : InboundEvent) (link : EntityLink) (r : Apply) (sides : Sides) (w u : World P)
      {o : SyncOutcome}
      → apply_resolution env event link (apply r) sides w ≡ (ok o, u)
      → Holds link.id r.merged u.links
  unfolding apply_resolution
  apply_resolution-Holds event link r sides w u e =
      let (now, w1, _, rest1) = >>=-ok _ _ w e in
      let (external, w2, _, rest2) = >>=-ok _ _ w1 rest1 in
      let (version, w3, _, rest3) = >>=-ok _ _ w2 rest2 in
      let (_, w4, marked, last) = >>=-ok _ _ w3 rest3 in
      subst (Holds link.id r.merged) (sym (finish_ok-links _ w4 u last))
        (mark-Holds _ _ _ _ w3 w4 marked)

  compare_linked-echo :
      (event : InboundEvent) (link : EntityLink) (internal : InternalInvoice)
      (state : Option ExternalInvoiceState) (w : World P)
      → link.last_synced_hash
        ≡ some (snapshot_hash env.sha256 (event_side event link internal state))
      → let (r, u) = compare_linked env event link internal state w in
        (r ≡ ok (record { kind = skip_outcome; action = skipped_echo }))
        × (u.ledger ≡ w.ledger)
        × (u.links ≡ w.links)
        × (u.remote ≡ w.remote)
  unfolding compare_linked skip write_audit ◌>>=◌
  compare_linked-echo event link internal state w h =
      let echoed : is_echo (snapshot_hash env.sha256 (event_side event link internal state))
            link.last_synced_hash
          ≡ true =
        rw h (text_eq_refl _) in
      rw echoed (refl, refl, refl, refl)

-- No loop of echoes: after a resolution was applied, a notification, from either system, of the
-- link's invoice in the merged state is skipped as an echo, with no record of either system and no
-- link changed; `k` is the link as the table then has it.
pub own_write_suppressed :
    {P : Type 0} (env : Env P) (event again : InboundEvent) (link k : EntityLink) (r : Apply)
    (sides : Sides) (w w' u : World P) (o : SyncOutcome) (internal : InternalInvoice)
    (state : Option ExternalInvoiceState)
    → apply_resolution env event link (apply r) sides w ≡ (ok o, w')
    → find_link link.id w'.links.rows ≡ some k
    → event_side again k internal state ≡ r.merged
    → ((compare_linked env again k internal state u).0
        ≡ ok (record { kind = skip_outcome; action = skipped_echo }))
      × ((compare_linked env again k internal state u).1.ledger ≡ u.ledger)
      × ((compare_linked env again k internal state u).1.links ≡ u.links)
      × ((compare_linked env again k internal state u).1.remote ≡ u.remote)
own_write_suppressed env event again link k r sides w w' u o internal state done found same =
    compare_linked-echo env again k internal state u (
      apply_resolution-Holds env event link r sides w w' done k found
      ∙ ap (λ c. some (snapshot_hash env.sha256 c)) (sym same))
