-- ===== src/Invoice/Content.antt =====
-- What a snapshot keeps of an invoice, and what its hash therefore tells apart.
use mathlib.Core.List.{Perm}
use mathlib.Core.List.Perm
use qbo_invoice_sync.Common.{
  ℕ, ◌≡◌, ◌↔◌, sym, ap, subst, ◌∙◌, List, [], ◌∷◌, leb, inl, inr, Bool-cases,
}
use qbo_invoice_sync.Invoice.{
  CanonicalLine, CanonicalInvoice, ComparableInvoice, lifecycle_of, insert_line, sort_lines,
  to_comparable, comparable_text, snapshot_hash,
}
use qbo_invoice_sync.Invoice.Sorting.{Distinct, map-copy_line, sort_lines-perm}
use qbo_invoice_sync.Invoice.Snapshots.{comparable_text_inj}

insert_line-perm : (l : CanonicalLine) (ls : List CanonicalLine) → Perm (insert_line l ls) (l ∷ ls)
unfolding insert_line
insert_line-perm l [] = Perm.refl (l ∷ [])
insert_line-perm l (m ∷ ms) = elim (Bool-cases (leb l.line_no m.line_no)) [
  | inl le ↦ rw le (Perm.refl (l ∷ m ∷ ms))
  | inr gt ↦ rw gt (Perm.trans (Perm.cons m (insert_line-perm l ms)) (Perm.swap l m ms))
]

sort_lines-perm_self : (ls : List CanonicalLine) → Perm (sort_lines ls) ls
unfolding sort_lines
sort_lines-perm_self [] = Perm.refl []
sort_lines-perm_self (l ∷ ls) =
    Perm.trans (insert_line-perm l (sort_lines ls)) (Perm.cons l (sort_lines-perm_self ls))

-- Two invoices that the sync takes for one: the order of the lines, the balance, the payment
-- status and the time of the last change are left out.
pub record SameContent (a b : CanonicalInvoice) : Type 0 where
  pub doc_number : a.doc_number ≡ b.doc_number
  pub customer_name : a.customer_name ≡ b.customer_name
  pub lifecycle : lifecycle_of a.status ≡ lifecycle_of b.status
  pub currency : a.currency ≡ b.currency
  pub notes : a.notes ≡ b.notes
  pub total_cents : a.total_cents ≡ b.total_cents
  pub lines : Perm a.lines b.lines

pub to_comparable-eq :
    (a b : CanonicalInvoice)
    → Distinct a.lines
    → SameContent a b
    → to_comparable a ≡ to_comparable b
unfolding to_comparable
to_comparable-eq a b d s = λ i. record {
  doc_number = s.doc_number i;
  customer_name = s.customer_name i;
  lifecycle = s.lifecycle i;
  currency = s.currency i;
  notes = s.notes i;
  total_cents = s.total_cents i;
  lines =
      (map-copy_line (sort_lines a.lines)
          ∙ sort_lines-perm s.lines d
          ∙ sym (map-copy_line (sort_lines b.lines)))
        i;
}

pub SameContent-of_eq :
    (a b : CanonicalInvoice) → to_comparable a ≡ to_comparable b → SameContent a b
unfolding to_comparable
SameContent-of_eq a b e = record {
  doc_number = ap (λ c. c.doc_number) e;
  customer_name = ap (λ c. c.customer_name) e;
  lifecycle = ap (λ c. c.lifecycle) e;
  currency = ap (λ c. c.currency) e;
  notes = ap (λ c. c.notes) e;
  total_cents = ap (λ c. c.total_cents) e;
  lines = Perm.trans (Perm.symm (sort_lines-perm_self a.lines)) (
      subst (λ ls. Perm ls b.lines)
        (sym (map-copy_line (sort_lines b.lines))
          ∙ sym (ap (λ c. c.lines) e)
          ∙ map-copy_line (sort_lines a.lines))
        (sort_lines-perm_self b.lines));
}

-- What the code relies on: the digest tells these two texts apart, if they differ.
abbrev pub NoCollision : (List ℕ → List ℕ) → List ℕ → List ℕ → Type 0
NoCollision sha256 s t = sha256 s ≡ sha256 t → s ≡ t

pub snapshot_hash_inj :
    (sha256 : List ℕ → List ℕ) (a b : ComparableInvoice)
    → NoCollision sha256 (comparable_text a) (comparable_text b)
    → snapshot_hash sha256 a ≡ snapshot_hash sha256 b
    → a ≡ b
unfolding snapshot_hash
snapshot_hash_inj sha256 a b free e = comparable_text_inj a b (free e)

-- Where the digest has no collision on the texts of two invoices, and the line numbers of the first
-- are distinct, the snapshots of the two have one hash exactly when the invoices agree in number,
-- customer, lifecycle (active, voided or deleted), currency, notes and total, and have the same
-- lines in some order.
pub snapshot_hash-eq_iff :
    (sha256 : List ℕ → List ℕ) (a b : CanonicalInvoice)
    → NoCollision sha256 (comparable_text (to_comparable a)) (comparable_text (to_comparable b))
    → Distinct a.lines
    → (snapshot_hash sha256 (to_comparable a) ≡ snapshot_hash sha256 (to_comparable b))
      ↔ SameContent a b
snapshot_hash-eq_iff sha256 a b free d = (
  λ e. SameContent-of_eq a b (snapshot_hash_inj sha256 _ _ free e),
  λ s. ap (snapshot_hash sha256) (to_comparable-eq a b d s),
)
