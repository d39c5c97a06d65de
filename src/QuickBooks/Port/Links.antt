-- ===== src/QuickBooks/Port/Links.antt =====
-- The invoices that a payment's lines are applied to (`linkedInvoiceAllocations` of
-- src/providers/quickbooks/qboMapper.ts), described without the code.
use mathlib.Core.Bool.{false≢true}
use qbo_invoice_sync.Common.{
  ◌≡◌, ◌≢◌, refl, sym, ap, subst, ◌∙◌, inl, inr, Bool-cases, Option-cases, Option, none, some,
  or_else, List, [], ◌∷◌, String, str_eq, str_eq_iff, str_eq_refl, Pairwise, pair, All,
}
use qbo_invoice_sync.Invoice.{PaymentAllocation}
use qbo_invoice_sync.Numbers.{Number}
use qbo_invoice_sync.QuickBooks.{LinkedTxn, QboPaymentLine}
use qbo_invoice_sync.QuickBooks.Fields.{truthy, invoice_txn, linked_invoice, line_allocations}

-- The transaction is an invoice with an id.
abbrev pub IsInvoiceLink : LinkedTxn → String → Type 0
IsInvoiceLink t id = (t.txn_type ≡ some "Invoice") × (t.txn_id ≡ some id) × (id ≢ "")

-- The first invoice among the transactions, and that there is none.
pub data FirstLink (id : String) : List LinkedTxn → Type 0 where
  first : {t : LinkedTxn} {ts : List LinkedTxn} → IsInvoiceLink t id → FirstLink id (t ∷ ts)
  later :
      {t : LinkedTxn} {ts : List LinkedTxn}
      → ((other : String) → ¬ IsInvoiceLink t other)
      → FirstLink id ts
      → FirstLink id (t ∷ ts)

abbrev pub NoLink : List LinkedTxn → Type 0
NoLink ts = All (λ t. (id : String) → ¬ IsInvoiceLink t id) ts

-- One allocation for each line that is linked to an invoice, in their order.
pub data Allocated (R : String × Option Number → PaymentAllocation → Type 0)
    : List QboPaymentLine → List PaymentAllocation → Type 0 where
  no_more : Allocated R [] []
  unlinked :
      {l : QboPaymentLine} {ls : List QboPaymentLine} {as_read : List PaymentAllocation}
      → NoLink (or_else l.linked_txn [])
      → Allocated R ls as_read
      → Allocated R (l ∷ ls) as_read
  linked :
      {l : QboPaymentLine} {ls : List QboPaymentLine} {a : PaymentAllocation}
      {as_read : List PaymentAllocation} (id : String)
      → FirstLink id (or_else l.linked_txn [])
      → R (id, l.amount) a
      → Allocated R ls as_read
      → Allocated R (l ∷ ls) (a ∷ as_read)

pub truthy-some : (o : Option String) {s : String} → truthy o ≡ some s → (o ≡ some s) × (s ≢ "")
truthy-some none e = cc
truthy-some (some t) {s} e = elim (Bool-cases (str_eq t "")) [
  | inl empty ↦ let never = rw empty at e in absurd (cc)
  | inr given ↦
      let same : t ≡ s = (let found = rw given at e in cc) in
      (
        ap some same,
        λ is_empty.
            false≢true (sym given ∙ ap (λ x. str_eq x "") (same ∙ is_empty) ∙ str_eq_refl ""),
      )
]

truthy-given : (s : String) → s ≢ "" → truthy (some s) ≡ some s
truthy-given s h = elim (Bool-cases (str_eq s "")) [
  | inl empty ↦ absurd (h ((str_eq_iff s "").0 empty))
  | inr given ↦ rw given refl
]

invoice_txn-some : (t : LinkedTxn) (id : String) → invoice_txn t ≡ some id → IsInvoiceLink t id
invoice_txn-some t id e = elim (Option-cases t.txn_type) [
  | inl untyped ↦ let f = rw untyped at e in absurd (cc)
  | inr (type, typed) ↦ elim (Bool-cases (str_eq type "Invoice")) [
    | inl same ↦
        let f = rw (typed, same) at e in
        let (there, given) = truthy-some t.txn_id f in
        (typed ∙ ap some ((str_eq_iff type "Invoice").0 same), there, given)
    | inr other ↦ let f = rw (typed, other) at e in absurd (cc)
  ]
]

invoice_txn-link : (t : LinkedTxn) (id : String) → IsInvoiceLink t id → invoice_txn t ≡ some id
invoice_txn-link t id (typed, there, given) = rw (typed, there) (truthy-given id given)

no_link : (t : LinkedTxn) → invoice_txn t ≡ none → (id : String) → ¬ IsInvoiceLink t id
no_link t e id h = let f = invoice_txn-link t id h in cc

module _ (t : LinkedTxn) (ts : List LinkedTxn) where
  linked_invoice-skip : invoice_txn t ≡ none → linked_invoice (t ∷ ts) ≡ linked_invoice ts
  unfolding linked_invoice
  linked_invoice-skip e =
      ap
        (λ (o : Option String). elim o as (λ x. Option String) [
          | none ↦ linked_invoice ts
          | some id ↦ some id
        ])
        e

  linked_invoice-take : (id : String) → invoice_txn t ≡ some id → linked_invoice (t ∷ ts) ≡ some id
  unfolding linked_invoice
  linked_invoice-take id e =
      ap
        (λ (o : Option String). elim o as (λ x. Option String) [
          | none ↦ linked_invoice ts
          | some id ↦ some id
        ])
        e

linked_invoice-first :
    (ts : List LinkedTxn) (id : String) → linked_invoice ts ≡ some id → FirstLink id ts
linked_invoice-first [] id e = unfold linked_invoice in cc
linked_invoice-first (t ∷ ts) id e = elim (Option-cases (invoice_txn t)) [
  | inl other ↦
      later (no_link t other)
        (linked_invoice-first ts id (sym (linked_invoice-skip t ts other) ∙ e))
  | inr (found, h) ↦
      let f = sym (linked_invoice-take t ts found h) ∙ e in
      let same : found ≡ id = cc in first (invoice_txn-some t id (h ∙ ap some same))
]

linked_invoice-none : (ts : List LinkedTxn) → linked_invoice ts ≡ none → NoLink ts
linked_invoice-none [] e = tt
linked_invoice-none (t ∷ ts) e = elim (Option-cases (invoice_txn t)) [
  | inl other ↦ (no_link t other, linked_invoice-none ts (sym (linked_invoice-skip t ts other) ∙ e))
  | inr (found, h) ↦ let f = sym (linked_invoice-take t ts found h) ∙ e in absurd (cc)
]

module _ (l : QboPaymentLine) (ls : List QboPaymentLine) where
  line_allocations-skip :
      linked_invoice (or_else l.linked_txn []) ≡ none
      → line_allocations (l ∷ ls) ≡ line_allocations ls
  unfolding line_allocations
  line_allocations-skip e =
      ap
        (λ (o : Option String).
          elim (elim o as (λ x. Option (String × Option Number)) [
            | none ↦ none
            | some id ↦ some (id, l.amount)
          ])
            as (λ x. List (String × Option Number)) [
              | none ↦ line_allocations ls
              | some a ↦ a ∷ line_allocations ls
            ])
        e

  line_allocations-take :
      (id : String)
      → linked_invoice (or_else l.linked_txn []) ≡ some id
      → line_allocations (l ∷ ls) ≡ ((id, l.amount) ∷ line_allocations ls)
  unfolding line_allocations
  line_allocations-take id e =
      ap
        (λ (o : Option String).
          elim (elim o as (λ x. Option (String × Option Number)) [
            | none ↦ none
            | some id ↦ some (id, l.amount)
          ])
            as (λ x. List (String × Option Number)) [
              | none ↦ line_allocations ls
              | some a ↦ a ∷ line_allocations ls
            ])
        e

linked_line :
    {R : String × Option Number → PaymentAllocation → Type 0} (l : QboPaymentLine)
    (ls : List QboPaymentLine) (id : String)
    → FirstLink id (or_else l.linked_txn [])
    → ((more : List PaymentAllocation)
        → Pairwise R (line_allocations ls) more
        → Allocated R ls more)
    → (as_read : List PaymentAllocation) → Pairwise R ((id, l.amount) ∷ line_allocations ls) as_read
    → Allocated R (l ∷ ls) as_read
linked_line l ls id f rest [] h = elim h [ ]
linked_line l ls id f rest (a ∷ more) (pair r rs) = linked id f r (rest more rs)

no_lines :
    {R : String × Option Number → PaymentAllocation → Type 0} (as_read : List PaymentAllocation)
    → Pairwise R (line_allocations []) as_read
    → Allocated R [] as_read
unfolding line_allocations
no_lines [] h = no_more
no_lines (a ∷ more) h = elim h [ ]

-- What the code lists of the lines.
pub line_allocations-Allocated :
    {R : String × Option Number → PaymentAllocation → Type 0} (ls : List QboPaymentLine)
    (as_read : List PaymentAllocation)
    → Pairwise R (line_allocations ls) as_read
    → Allocated R ls as_read
line_allocations-Allocated [] as_read h = no_lines as_read h
line_allocations-Allocated {R} (l ∷ ls) as_read h =
    elim (Option-cases (linked_invoice (or_else l.linked_txn []))) [
      | inl none_there ↦ unlinked (linked_invoice-none (or_else l.linked_txn []) none_there) (
          line_allocations-Allocated ls as_read
            (subst (λ x. Pairwise R x as_read) (line_allocations-skip l ls none_there) h))
      | inr (id, found) ↦
          linked_line l ls id (linked_invoice-first (or_else l.linked_txn []) id found)
            (line_allocations-Allocated ls) as_read
            (subst (λ x. Pairwise R x as_read) (line_allocations-take l ls id found) h)
    ]
