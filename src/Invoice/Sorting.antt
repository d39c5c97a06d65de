-- ===== src/Invoice/Sorting.antt =====
-- The order of the lines: sorting by line number forgets the order in which they came.
use mathlib.Core.Logic.{∥∥₁_elim}
use mathlib.Core.List.{Perm, Permᴰ}
use qbo_invoice_sync.Common.{
  ◌≡◌, ◌≢◌, refl, sym, ap, ap₂, subst, ◌∙◌, List, [], ◌∷◌, map, arith, All, String-set,
}
use qbo_invoice_sync.Invoice.{CanonicalLine, insert_line, sort_lines, copy_line}

abbrev pub Distinct : List CanonicalLine → Type 0
Distinct [] = Unit
Distinct (l ∷ ls) = All (λ m. l.line_no ≢ m.line_no) ls × Distinct ls

pub map-copy_line : (ls : List CanonicalLine) → map copy_line ls ≡ ls
map-copy_line [] = refl
map-copy_line (l ∷ ls) = ap (λ ms. l ∷ ms) (map-copy_line ls)

insert_line_comm :
    (a b : CanonicalLine) (ls : List CanonicalLine)
    → a.line_no ≢ b.line_no
    → insert_line a (insert_line b ls) ≡ insert_line b (insert_line a ls)
unfolding insert_line
insert_line_comm a b [] h = ground arith
insert_line_comm a b (m ∷ ms) h = ground (arith, insert_line_comm a b ms h)

All-perm {ℓ} :
    (P : CanonicalLine → Type ℓ) {xs ys : List CanonicalLine} → Permᴰ xs ys → All P xs → All P ys
All-perm P Permᴰ.nil h = tt
All-perm P (Permᴰ.cons e p) h = (subst P e h.0, All-perm P p h.1)
All-perm P (Permᴰ.swap e f) h = (subst P f h.1.0, (subst P e h.0, h.1.1))
All-perm P (Permᴰ.trans p q) h = All-perm P q (All-perm P p h)

Distinct-perm : {xs ys : List CanonicalLine} → Permᴰ xs ys → Distinct xs → Distinct ys
Distinct-perm Permᴰ.nil h = tt
Distinct-perm (Permᴰ.cons {a} {b} {l₂ = ys} e p) h =
    (subst (λ x. All (λ m. x.line_no ≢ m.line_no) ys) e (All-perm _ p h.0), Distinct-perm p h.1)
Distinct-perm (Permᴰ.swap {l} e f) h = (
  (
    λ same. h.0.0 (ap (λ x. x.line_no) e ∙ sym same ∙ sym (ap (λ x. x.line_no) f)),
    subst (λ x. All (λ m. x.line_no ≢ m.line_no) l) f h.1.0,
  ),
  (subst (λ x. All (λ m. x.line_no ≢ m.line_no) l) e h.0.1, h.1.1),
)
Distinct-perm (Permᴰ.trans p q) h = Distinct-perm q (Distinct-perm p h)

sort_lines-permᴰ :
    {xs ys : List CanonicalLine} → Permᴰ xs ys → Distinct xs → sort_lines xs ≡ sort_lines ys
unfolding sort_lines
sort_lines-permᴰ Permᴰ.nil h = refl
sort_lines-permᴰ (Permᴰ.cons e p) h = ap₂ insert_line e (sort_lines-permᴰ p h.1)
sort_lines-permᴰ (Permᴰ.swap {a} {b} {l} e f) h =
    insert_line_comm a b (sort_lines l) h.0.0
    ∙ ap₂ (λ x y. insert_line x (insert_line y (sort_lines l))) f e
sort_lines-permᴰ (Permᴰ.trans p q) h = sort_lines-permᴰ p h ∙ sort_lines-permᴰ q (Distinct-perm p h)

CanonicalLine-set : IsSet (List CanonicalLine)
CanonicalLine-set = hlevel String-set

-- Lists of lines that are the same up to order, with distinct numbers, are sorted to one list.
pub sort_lines-perm :
    {xs ys : List CanonicalLine} → Perm xs ys → Distinct xs → sort_lines xs ≡ sort_lines ys
sort_lines-perm p h = ∥∥₁_elim p (CanonicalLine-set _ _) (λ d. sort_lines-permᴰ d h)
