-- ===== src/Queue/Publish.antt =====
-- `publish`: redelivered notifications are recognised by their key.
use qbo_invoice_sync.Common.{
  In, here, there, ℕ, ◌+◌, ◌≡◌, ◌≢◌, ◌↔◌, ◌⊎◌, refl, sym, ap, ◌∙◌, true, false, none, some, List,
  [], ◌∷◌, ◌++◌, String, str_eq, str_eq_iff, arith, All, inl, inr, Bool-cases,
}
use qbo_invoice_sync.Queue.{Row, IngestEventInput, Queue, has_key, new_row, to_event, publish}

pub record KeyTaken (key : String) (rs : List Row) : Type 0 where
  pub row : Row
  pub present : In row rs
  pub same : row.dedupe_key ≡ key

pub has_key-KeyTaken : (key : String) (rs : List Row) → has_key key rs ≡ true → KeyTaken key rs
unfolding has_key
has_key-KeyTaken key [] h = cc
has_key-KeyTaken key (r ∷ rs) h = elim (Bool-cases (str_eq r.dedupe_key key)) [
  | inl same ↦ record { row = r; present = here refl; same = (str_eq_iff r.dedupe_key key).0 same }
  | inr other ↦
      let t = has_key-KeyTaken key rs (ground arith) in
      record { row = t.row; present = there t.present; same = t.same }
]

pub has_key-false :
    (key : String) (rs : List Row) → has_key key rs ≡ false → All (λ r. r.dedupe_key ≢ key) rs
unfolding has_key
has_key-false key [] h = tt
has_key-false key (r ∷ rs) h = (
  λ e. let t = (str_eq_iff r.dedupe_key key).1 e in ground arith,
  has_key-false key rs (ground arith),
)

pub has_key_of_In :
    (key : String) (r : Row) (rs : List Row) → In r rs → r.dedupe_key ≡ key → has_key key rs ≡ true
unfolding has_key
has_key_of_In key r [] m e = elim m [ ]
has_key_of_In key r (s ∷ rs) (here p) e =
    let t = (str_eq_iff s.dedupe_key key).1 (ap (λ x. x.dedupe_key) (sym p) ∙ e) in rw t
has_key_of_In key r (s ∷ rs) (there m) e = let t = has_key_of_In key r rs m e in ground arith

-- A notification is reported as a duplicate exactly when a row with its key is in the table,
-- whatever the state of that row.
pub publish-none_iff :
    (now : ℕ) (e : IngestEventInput) (q : Queue)
    → ((publish now e q).1 ≡ none) ↔ KeyTaken e.dedupe_key q.rows
unfolding publish
publish-none_iff now e q = elim (Bool-cases (has_key e.dedupe_key q.rows)) [
  | inl taken ↦ (λ h. has_key-KeyTaken e.dedupe_key q.rows taken, λ t. rw taken)
  | inr fresh ↦ (
    λ h. let f = rw fresh at h in absurd (cc),
    λ t. let p = has_key_of_In e.dedupe_key t.row q.rows t.present t.same in absurd (cc),
  )
]

-- What `publish` leaves: the same rows for a duplicate, one more pending row otherwise.
pub publish_cases :
    (now : ℕ) (e : IngestEventInput) (q : Queue)
    → ((has_key e.dedupe_key q.rows ≡ true)
        × (publish now e q ≡ (record { rows = q.rows; next_id = q.next_id + 1 }, none)))
      ⊎ ((has_key e.dedupe_key q.rows ≡ false)
          × (publish now e q ≡ (
            record { rows = q.rows ++ (new_row q.next_id now e ∷ []); next_id = q.next_id + 1 },
            some (to_event (new_row q.next_id now e)),
          )))
unfolding publish
publish_cases now e q = elim (Bool-cases (has_key e.dedupe_key q.rows)) [
  | inl taken ↦ inl (taken, rw taken)
  | inr fresh ↦ inr (fresh, rw fresh)
]
