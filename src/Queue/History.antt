-- ===== src/Queue/History.antt =====
-- What holds along every sequence of queue operations: the inbox only grows, a key is accepted
-- once, and a leased event is handed to nobody else.
use mathlib.Core.List.{map-append}
use qbo_invoice_sync.Common.{
  In, In-append, In-concat, In-map, In-of_map, ℕ, ◌≡◌, refl, sym, ap, subst, ◌∙◌, inl, inr, Bool,
  Option, none, List, [], ◌∷◌, ◌++◌, append_assoc, append-nil, map, String, Option-cases,
}
use qbo_invoice_sync.Invoice.{Date}
use qbo_invoice_sync.Json.{Json}
use qbo_invoice_sync.Queue.{
  Row, IngestEventInput, Queue, new_row, publish, select_due, update_row, take_lease, claim, ack,
  dead_letter, retry_later, requeue,
}
use qbo_invoice_sync.Queue.Rows.{map-update_row}
use qbo_invoice_sync.Queue.Publish.{KeyTaken, has_key-KeyTaken, publish-none_iff, publish_cases}
use qbo_invoice_sync.Queue.Invariant.{
  Step, published, claimed, acked, dead_lettered, postponed, requeued, Reach, start, next,
}

-- What a row says of the notification that it was made from.
pub record Notice : Type 0 where
  pub id : ℕ
  pub source : String
  pub entity_type : String
  pub entity_id : String
  pub operation : String
  pub occurred_at : Date
  pub dedupe_key : String
  pub payload : Option Json

abbrev pub notice : Row → Notice
notice r = record {
  id = r.id;
  source = r.source;
  entity_type = r.entity_type;
  entity_id = r.entity_id;
  operation = r.operation;
  occurred_at = r.occurred_at;
  dedupe_key = r.dedupe_key;
  payload = r.payload;
}

abbrev pub notices : Queue → List Notice
notices q = map notice q.rows

-- `later` holds the notices of `earlier` and then some.
abbrev pub Extends : List Notice → List Notice → Type 0
Extends earlier later = (more : List Notice) × (later ≡ earlier ++ more)

Extends-same :
    (q : Queue) (rs : List Row) → map notice rs ≡ notices q → Extends (notices q) (map notice rs)
Extends-same q rs e = ([], e ∙ sym (append-nil (notices q)))

claim-Extends :
    (now lease_ms : ℕ) (held : ℕ → Bool) (q : Queue)
    → Extends (notices q) (notices (claim now lease_ms held q).0)
unfolding claim
claim-Extends now lease_ms held q = elim (Option-cases (select_due now held q.rows)) [
  | inl nothing ↦ rw (nothing, claim) (Extends-same q q.rows refl)
  | inr (r, found) ↦
      rw (found, claim)
        (Extends-same q _ (map-update_row notice r.id (take_lease now lease_ms) q.rows (λ s. refl)))
]

publish-Extends :
    (now : ℕ) (e : IngestEventInput) (q : Queue) → Extends (notices q) (notices (publish now e q).0)
publish-Extends now e q = elim (publish_cases now e q) [
  | inl (_, same) ↦ rw same (Extends-same q q.rows refl)
  | inr (_, more) ↦ rw more (
    notice (new_row q.next_id now e) ∷ [],
    map-append notice q.rows (new_row q.next_id now e ∷ []),
  )
]

update-Extends :
    (q : Queue) (id : ℕ) (f : Row → Row)
    → ((r : Row) → notice (f r) ≡ notice r)
    → Extends (notices q) (map notice (update_row id f q.rows))
update-Extends q id f same = Extends-same q _ (map-update_row notice id f q.rows same)

Step-Extends : (q u : Queue) → Step q u → Extends (notices q) (notices u)
unfolding ack dead_letter retry_later requeue
Step-Extends q u (published now e p) = rw p (publish-Extends now e q)
Step-Extends q u (claimed now lease_ms held p) = rw p (claim-Extends now lease_ms held q)
Step-Extends q u (acked now id d p) = rw p (update-Extends q id _ (λ r. refl))
Step-Extends q u (dead_lettered now id error p) = rw p (update-Extends q id _ (λ r. refl))
Step-Extends q u (postponed id at error p) = rw p (update-Extends q id _ (λ r. refl))
Step-Extends q u (requeued now id p) = rw p (update-Extends q id _ (λ r. refl))

-- The inbox only grows: after any operations the table still holds every notification that it
-- held, unchanged and in the same order, and new ones stand behind them.
pub Reach-Extends : {q u : Queue} → Reach q u → Extends (notices q) (notices u)
Reach-Extends {q} start = ([], sym (append-nil (notices q)))
Reach-Extends {q} (next {t} {u} r s) =
    let (more, e) = Reach-Extends r in
    let (last, f) = Step-Extends t u s in
    (more ++ last, f ∙ ap (λ x. x ++ last) e ∙ append_assoc (notices q) more last)

-- A row of an earlier state is still there, with the notification that it was made from.
pub Reach-In :
    {q u : Queue} {r : Row}
    → Reach q u
    → In r q.rows
    → (s : Row) × In s u.rows × (notice s ≡ notice r)
Reach-In {q} {u} {r} reach m =
    let (more, e) = Reach-Extends reach in
    In-of_map notice u.rows
      (subst (In (notice r)) (sym e) (In-append (notices q) more (In-map notice q.rows m)))

publish-KeyTaken :
    (now : ℕ) (e : IngestEventInput) (q : Queue) → KeyTaken e.dedupe_key (publish now e q).0.rows
publish-KeyTaken now e q = elim (publish_cases now e q) [
  | inl (taken, same) ↦ rw same (has_key-KeyTaken e.dedupe_key q.rows taken)
  | inr (_, more) ↦
      rw more (record { row = new_row q.next_id now e; present = In-concat q.rows _; same = refl })
]

-- A publication that is reported as a duplicate changes no row.
unchanged :
    (now : ℕ) (e : IngestEventInput) (q : Queue)
    → (publish now e q).1 ≡ none
    → (publish now e q).0.rows ≡ q.rows
unchanged now e q h = elim (publish_cases now e q) [
  | inl (_, same) ↦ rw same
  | inr (_, more) ↦ let f = rw more at h in absurd (cc)
]

-- A key is accepted once: whatever happens to the queue after a notification was published, one
-- more publication of its key is reported as a duplicate, and leaves the rows as they are.
pub publish_once :
    (now : ℕ) (e : IngestEventInput) (q u : Queue)
    → Reach (publish now e q).0 u
    → (later : ℕ) (again : IngestEventInput) → again.dedupe_key ≡ e.dedupe_key
    → ((publish later again u).1 ≡ none) × ((publish later again u).0.rows ≡ u.rows)
publish_once now e q u reach later again same =
    let taken = key_kept reach (publish-KeyTaken now e q) in
    let dup =
      (publish-none_iff later again u).1
        (record { row = taken.row; present = taken.present; same = taken.same ∙ sym same }) in
    (dup, unchanged later again u dup)
  where
    key_kept :
        {t u : Queue} → Reach t u → KeyTaken e.dedupe_key t.rows → KeyTaken e.dedupe_key u.rows
    key_kept r k =
        let (s, m, same') = Reach-In r k.present in
        record { row = s; present = m; same = ap (λ n. n.dedupe_key) same' ∙ k.same }
