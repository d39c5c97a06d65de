-- ===== src/Queue/Invariant.antt =====
-- What every state of the queue satisfies, and that each operation keeps it.
use qbo_invoice_sync.Common.{
  ℕ, ◌<◌, ◌≡◌, ◌≢◌, refl, sym, ap, subst, ◌∙◌, inl, inr, Bool, Option, none, some, List, [], ◌∷◌,
  ◌++◌, String, arith, ◌==◌, All, In, here, there, All-In, All-append, All-map, Bool-cases,
  Option-cases,
}
use qbo_invoice_sync.Queue.{
  InboundEventStatus, in_flight, dead, Row, IngestEventInput, Queue, publish, select_due,
  update_row, take_lease, claim, finish, Disposition, as_processed, as_skipped, disposition_status,
  ack, dead_letter, postpone, retry_later, reopen, requeue,
}
use qbo_invoice_sync.Queue.Rows.{update_row-All}
use qbo_invoice_sync.Queue.Publish.{has_key-false, publish_cases}

-- A lease belongs to an event that is being worked on, and to no other.
abbrev pub LockFor : InboundEventStatus → Option ℕ → Type 0
LockFor in_flight lock = lock ≢ none
LockFor _ lock = lock ≡ none

abbrev pub LockMatches : Row → Type 0
LockMatches r = LockFor r.status r.locked_until

-- The rows stand in the order of their ids, which differ.
abbrev pub Ascending : List Row → Type 0
Ascending [] = Unit
Ascending (r ∷ rs) = All (λ s. r.id < s.id) rs × Ascending rs

abbrev pub KeysDiffer : List Row → Type 0
KeysDiffer [] = Unit
KeysDiffer (r ∷ rs) = All (λ s. r.dedupe_key ≢ s.dedupe_key) rs × KeysDiffer rs

pub record IsValid (q : Queue) : Type 0 where
  pub below : All (λ r. r.id < q.next_id) q.rows
  pub ascending : Ascending q.rows
  pub keys : KeysDiffer q.rows
  pub locks : All LockMatches q.rows

-- An update that keeps the id and the key of a row, and leaves its lock as its status wants it.
pub record Keeps (f : Row → Row) : Type 0 where
  pub id : (r : Row) → (f r).id ≡ r.id
  pub key : (r : Row) → (f r).dedupe_key ≡ r.dedupe_key
  pub lock : (r : Row) → LockMatches (f r)

module _ (f : Row → Row) (k : Keeps f) (id : ℕ) where
  update_row-Ascending : (rs : List Row) → Ascending rs → Ascending (update_row id f rs)
  unfolding update_row
  update_row-Ascending [] h = tt
  update_row-Ascending (r ∷ rs) h = elim (Bool-cases (r.id == id)) [
    | inl hit ↦ rw hit (
      subst (λ n. All (λ s. n < s.id) (update_row id f rs)) (sym (k.id r)) (later r rs h.0),
      update_row-Ascending rs h.1,
    )
    | inr miss ↦ rw miss (later r rs h.0, update_row-Ascending rs h.1)
  ]
    where
      later :
          (r : Row) (rs : List Row)
          → All (λ s. r.id < s.id) rs
          → All (λ s. r.id < s.id) (update_row id f rs)
      later r rs h = update_row-All (λ s. r.id < s.id) id f rs (λ s p. rw (k.id s) p) h

  update_row-KeysDiffer : (rs : List Row) → KeysDiffer rs → KeysDiffer (update_row id f rs)
  unfolding update_row
  update_row-KeysDiffer [] h = tt
  update_row-KeysDiffer (r ∷ rs) h = elim (Bool-cases (r.id == id)) [
    | inl hit ↦ rw hit (
      subst (λ n. All (λ s. n ≢ s.dedupe_key) (update_row id f rs)) (sym (k.key r))
          (later r rs h.0),
      update_row-KeysDiffer rs h.1,
    )
    | inr miss ↦ rw miss (later r rs h.0, update_row-KeysDiffer rs h.1)
  ]
    where
      later :
          (r : Row) (rs : List Row)
          → All (λ s. r.dedupe_key ≢ s.dedupe_key) rs
          → All (λ s. r.dedupe_key ≢ s.dedupe_key) (update_row id f rs)
      later r rs h =
          update_row-All (λ s. r.dedupe_key ≢ s.dedupe_key) id f rs (λ s p. rw (k.key s) p) h

  pub update-IsValid :
      (q : Queue) → IsValid q → IsValid (record q { rows = update_row id f q.rows })
  update-IsValid q v = record {
    below = update_row-All (λ r. r.id < q.next_id) id f q.rows (λ r p. rw (k.id r) p) v.below;
    ascending = update_row-Ascending q.rows v.ascending;
    keys = update_row-KeysDiffer q.rows v.keys;
    locks = update_row-All LockMatches id f q.rows (λ r _. k.lock r) v.locks;
  }

take_lease-Keeps : (now lease_ms : ℕ) → Keeps (take_lease now lease_ms)
take_lease-Keeps now lease_ms = record { id = λ r. refl; key = λ r. refl; lock = λ r. (cc) }

finish-Keeps :
    (now : ℕ) (status : InboundEventStatus) (error : Option String)
    → status ≢ in_flight
    → Keeps (finish now status error)
finish-Keeps now status error ne = record {
  id = λ r. refl;
  key = λ r. refl;
  lock = λ r. unlocked status ne;
}
  where
    unlocked : (s : InboundEventStatus) → s ≢ in_flight → LockFor s none
    unlocked in_flight h = absurd (h refl)
    unlocked _ h = refl

postpone-Keeps : (at : ℕ) (error : String) → Keeps (postpone at error)
postpone-Keeps at error = record { id = λ r. refl; key = λ r. refl; lock = λ r. refl }

reopen-Keeps : (now : ℕ) → Keeps (reopen now)
reopen-Keeps now = record { id = λ r. refl; key = λ r. refl; lock = λ r. refl }

disposition-ne-in_flight : (d : Disposition) → disposition_status d ≢ in_flight
disposition-ne-in_flight as_processed = cc
disposition-ne-in_flight as_skipped = cc

Ascending-append :
    (rs : List Row) (r : Row)
    → Ascending rs
    → All (λ s. s.id < r.id) rs
    → Ascending (rs ++ (r ∷ []))
Ascending-append [] r h k = (tt, tt)
Ascending-append (s ∷ rs) r h k =
    (All-append _ rs (r ∷ []) h.0 (k.0, tt), Ascending-append rs r h.1 k.1)

KeysDiffer-append :
    (rs : List Row) (r : Row)
    → KeysDiffer rs
    → All (λ s. s.dedupe_key ≢ r.dedupe_key) rs
    → KeysDiffer (rs ++ (r ∷ []))
KeysDiffer-append [] r h k = (tt, tt)
KeysDiffer-append (s ∷ rs) r h k =
    (All-append _ rs (r ∷ []) h.0 (k.0, tt), KeysDiffer-append rs r h.1 k.1)

publish-IsValid :
    (now : ℕ) (e : IngestEventInput) (q : Queue) → IsValid q → IsValid (publish now e q).0
publish-IsValid now e q v = elim (publish_cases now e q) [
  | inl (taken, same) ↦ rw same (record {
    below = All-map (λ r p. omega arith) q.rows v.below;
    ascending = v.ascending;
    keys = v.keys;
    locks = v.locks;
  })
  | inr (fresh, more) ↦ rw more (record {
    below = All-append _ q.rows _ (All-map (λ r p. omega arith) q.rows v.below) (omega arith, tt);
    ascending = Ascending-append q.rows _ v.ascending v.below;
    keys = KeysDiffer-append q.rows _ v.keys (has_key-false e.dedupe_key q.rows fresh);
    locks = All-append _ q.rows _ v.locks (refl, tt);
  })
]

claim-IsValid :
    (now lease_ms : ℕ) (held : ℕ → Bool) (q : Queue)
    → IsValid q
    → IsValid (claim now lease_ms held q).0
unfolding claim
claim-IsValid now lease_ms held q v = elim (Option-cases (select_due now held q.rows)) [
  | inl nothing ↦ rw (nothing, claim) v
  | inr (r, found) ↦ rw (found, claim) (update-IsValid _ (take_lease-Keeps now lease_ms) r.id q v)
]

-- One operation of the queue. The clocks' readings, and the rows that other transactions hold, are
-- the environment's choice.
pub data Step (q : Queue) (u : Queue) : Type 0 where
  published : (now : ℕ) (e : IngestEventInput) → u ≡ (publish now e q).0 → Step q u
  claimed : (now lease_ms : ℕ) (held : ℕ → Bool) → u ≡ (claim now lease_ms held q).0 → Step q u
  acked : (now id : ℕ) (d : Disposition) → u ≡ ack now id d q → Step q u
  dead_lettered : (now id : ℕ) (error : String) → u ≡ dead_letter now id error q → Step q u
  postponed : (id at : ℕ) (error : String) → u ≡ retry_later id at error q → Step q u
  requeued : (now id : ℕ) → u ≡ requeue now id q → Step q u

pub data Reach (q : Queue) : Queue → Type 0 where
  start : Reach q q
  next : {t u : Queue} → Reach q t → Step t u → Reach q u

-- Every operation of the queue keeps it well formed: ids below the sequence and ascending, keys
-- that differ, and a lease exactly on the events in flight.
pub Step-IsValid : (q u : Queue) → Step q u → IsValid q → IsValid u
unfolding ack dead_letter retry_later requeue
Step-IsValid q u (published now e p) v = rw p (publish-IsValid now e q v)
Step-IsValid q u (claimed now lease_ms held p) v = rw p (claim-IsValid now lease_ms held q v)
Step-IsValid q u (acked now id d p) v =
    rw p (update-IsValid _ (finish-Keeps now _ none (disposition-ne-in_flight d)) id q v)
Step-IsValid q u (dead_lettered now id error p) v =
    rw p (update-IsValid _ (finish-Keeps now dead (some error) (cc)) id q v)
Step-IsValid q u (postponed id at error p) v =
    rw p (update-IsValid _ (postpone-Keeps at error) id q v)
Step-IsValid q u (requeued now id p) v = rw p (update-IsValid _ (reopen-Keeps now) id q v)

-- Every state that operations lead to from a well-formed one is well formed.
pub Reach-IsValid : {q u : Queue} → IsValid q → Reach q u → IsValid u
Reach-IsValid v start = v
Reach-IsValid v (next {t} {u} r s) = Step-IsValid t u s (Reach-IsValid v r)

pub Reach-trans : {q t u : Queue} → Reach q t → Reach t u → Reach q u
Reach-trans r start = r
Reach-trans r (next s step) = next (Reach-trans r s) step

-- The row of an id is unique.
pub unique_row :
    (r s : Row) (rs : List Row) → Ascending rs → In r rs → In s rs → r.id ≡ s.id → r ≡ s
unique_row r s [] a m k e = elim m [ ]
unique_row r s (t ∷ rs) a (here p) (here q) e = p ∙ sym q
unique_row r s (t ∷ rs) a (here p) (there k) e =
    let before : t.id < s.id = All-In (λ u. t.id < u.id) s rs a.0 k in
    let same : r.id ≡ t.id = ap (λ x. x.id) p in absurd (omega arith)
unique_row r s (t ∷ rs) a (there m) (here q) e =
    let before : t.id < r.id = All-In (λ u. t.id < u.id) r rs a.0 m in
    let same : s.id ≡ t.id = ap (λ x. x.id) q in absurd (omega arith)
unique_row r s (t ∷ rs) a (there m) (there k) e = unique_row r s rs a.1 m k e
