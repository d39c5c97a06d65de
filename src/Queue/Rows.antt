-- ===== src/Queue/Rows.antt =====
-- Lemmas on the rows: membership as a family, updates by id, and the selection of a due row.
use qbo_invoice_sync.Common.{
  ℕ, ◌≤◌, ◌≡◌, ◌≢◌, refl, ap, ap₂, inl, inr, Bool, true, false, not, ◌&&◌, List, [], ◌∷◌, map,
  arith, ◌==◌, All, In, here, there, Bool-cases,
}
use qbo_invoice_sync.Queue.{Row, is_due, update_row}

pub update_row-All {ℓ} :
    (P : Row → Type ℓ) (id : ℕ) (f : Row → Row) (rs : List Row)
    → ((r : Row) → P r → P (f r))
    → All P rs
    → All P (update_row id f rs)
unfolding update_row
update_row-All P id f [] keep h = tt
update_row-All P id f (r ∷ rs) keep h = elim (Bool-cases (r.id == id)) [
  | inl same ↦ rw same (keep r h.0, update_row-All P id f rs keep h.1)
  | inr other ↦ rw other (h.0, update_row-All P id f rs keep h.1)
]

-- The rows of other ids are left alone; those of the id become what the update makes of them.
pub update_row-All_at {ℓ} :
    (P : Row → Type ℓ) (id : ℕ) (f : Row → Row) (rs : List Row)
    → ((r : Row) → r.id ≡ id → In r rs → P (f r))
    → ((r : Row) → r.id ≢ id → In r rs → P r)
    → All P (update_row id f rs)
unfolding update_row
update_row-All_at P id f [] at other = tt
update_row-All_at P id f (r ∷ rs) at other =
    let rest =
      update_row-All_at P id f rs (λ s n m. at s n (there m)) (λ s n m. other s n (there m)) in
    elim (Bool-cases (r.id == id)) [
      | inl same ↦ rw same (at r (ground arith) (here refl), rest)
      | inr differs ↦ rw differs (other r (ground arith) (here refl), rest)
    ]

-- A property of the rows that an update leaves alone, read off as a list.
pub map-update_row {ℓ} :
    {A : Type ℓ} (g : Row → A) (id : ℕ) (f : Row → Row) (rs : List Row)
    → ((r : Row) → g (f r) ≡ g r)
    → map g (update_row id f rs) ≡ map g rs
unfolding update_row
map-update_row g id f [] same = refl
map-update_row g id f (r ∷ rs) same = elim (Bool-cases (r.id == id)) [
  | inl hit ↦ rw hit (ap₂ ◌∷◌ (same r) (map-update_row g id f rs same))
  | inr miss ↦ rw miss (ap (λ t. g r ∷ t) (map-update_row g id f rs same))
]

-- What `ORDER BY id LIMIT 1` over the due rows returns.
pub record IsFirstDue (now : ℕ) (held : ℕ → Bool) (rs : List Row) (r : Row) : Type 0 where
  pub present : In r rs
  pub due : is_due now r ≡ true
  pub free : held r.id ≡ false
  pub least : All (λ s. (is_due now s && not (held s.id)) ≡ true → r.id ≤ s.id) rs

abbrev pub NoneDue : ℕ → (ℕ → Bool) → List Row → Type 0
NoneDue now held rs = All (λ s. (is_due now s && not (held s.id)) ≡ false) rs
