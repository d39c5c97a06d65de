-- ===== src/Worker/Progress/Measure.antt =====
-- The rounds that the rows of the queue can still take.
use qbo_invoice_sync.Common.{
  ℕ, suc, ◌+◌, ◌-◌, ◌<◌, ◌≡◌, refl, sym, subst, true, false, List, [], ◌∷◌, arith, ◌==◌, In, here,
  there, All, All-In,
}
use qbo_invoice_sync.Queue.{processed, skipped, dead, Row, update_row}
use qbo_invoice_sync.Queue.Invariant.{Ascending}

-- A finished event takes no round; another takes at most one for each attempt that is left, and
-- one more.
abbrev pub rounds_left : ℕ → Row → ℕ
rounds_left max r = elim r.status [
  | processed ↦ 0
  | skipped ↦ 0
  | dead ↦ 0
  | _ ↦ suc (max - r.attempts)
]

abbrev pub work : ℕ → List Row → ℕ
work max [] = 0
work max (r ∷ rs) = rounds_left max r + work max rs

pub update_row-update_row :
    (id : ℕ) (f g : Row → Row) (rs : List Row)
    → ((r : Row) → (f r).id ≡ r.id)
    → update_row id g (update_row id f rs) ≡ update_row id (λ r. g (f r)) rs
unfolding update_row
update_row-update_row id f g [] keep = refl
update_row-update_row id f g (r ∷ rs) keep =
    ground (arith, keep r, update_row-update_row id f g rs keep)

update_row-absent :
    (id : ℕ) (f : Row → Row) (rs : List Row) → All (λ s. id < s.id) rs → update_row id f rs ≡ rs
unfolding update_row
update_row-absent id f [] h = refl
update_row-absent id f (r ∷ rs) h = ground (arith, update_row-absent id f rs h.1)

work-update_head :
    (max : ℕ) (f : Row → Row) (s : Row) (rs : List Row)
    → All (λ u. s.id < u.id) rs
    → work max (update_row s.id f (s ∷ rs)) + rounds_left max s
      ≡ work max (s ∷ rs) + rounds_left max (f s)
unfolding update_row
work-update_head max f s rs later =
    let self : (s.id == s.id) ≡ true = ground arith in
    rw (self, update_row-absent s.id f rs later) (omega arith)

-- An update changes the sum by what it does to the one row of its id.
pub work-update :
    (max : ℕ) (f : Row → Row) (r : Row) (rs : List Row)
    → Ascending rs
    → In r rs
    → work max (update_row r.id f rs) + rounds_left max r ≡ work max rs + rounds_left max (f r)
unfolding update_row
work-update max f r [] a m = elim m [ ]
work-update max f r (s ∷ rs) a (here e) =
    subst
      (λ x.
        work max (update_row x.id f (s ∷ rs)) + rounds_left max x
        ≡ work max (s ∷ rs) + rounds_left max (f x))
      (sym e) (work-update_head max f s rs a.0)
work-update max f r (s ∷ rs) a (there m) =
    let before : s.id < r.id = All-In (λ u. s.id < u.id) r rs a.0 m in
    let other : (s.id == r.id) ≡ false = ground arith in
    rw other (omega (arith, work-update max f r rs a.1 m))
