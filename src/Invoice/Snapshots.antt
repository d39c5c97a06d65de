-- ===== src/Invoice/Snapshots.antt =====
-- The text of a snapshot determines the snapshot: comparing texts, as the resolver and the hash
-- do, compares every field that is synchronised.
mod Line
use qbo_invoice_sync.Invoice.Snapshots.Line.{
  nullable_text, line_text, line_text_lem, nullable_text_peel, line_text_peel, line_text-ne-bracket,
}
use qbo_invoice_sync.Common.{
  ℕ, ◌≡◌, ◌≢◌, refl, sym, ap, ap₂, ◌∙◌, String, str_eq, if◌then◌else◌, codes, Option, none, some,
  List, [], ◌∷◌, ◌++◌, arith, head-eq, tail-eq, append_assoc, append_cancel,
}
use qbo_invoice_sync.Common.Int.{ℤ, pos}
use qbo_invoice_sync.Json.{
  str, num, stable_stringify, quote, number_text, join_commas, item_texts, field_texts, Fields,
  field, escape, escape_all,
}
use qbo_invoice_sync.Json.Quoting.{quote_peel, number_text_peel}
use qbo_invoice_sync.Decimal.Reading.{Stops}
use qbo_invoice_sync.Invoice.{
  CanonicalLine, ComparableInvoice, Lifecycle, active, lifecycle_text, nullable, line_json,
  lines_json, comparable_json, comparable_text,
}

-- The lines behind the first, each after a comma, the closing bracket, and what follows.
more_lines : List CanonicalLine → List ℕ → List ℕ
more_lines [] r = b']' ∷ r
more_lines (l ∷ ls) r = b',' ∷ line_text l (more_lines ls r)

all_lines : List CanonicalLine → List ℕ → List ℕ
unfolding more_lines
all_lines [] r = b']' ∷ r
all_lines (l ∷ ls) r = line_text l (more_lines ls r)

all_lines_lem :
    (ls : List CanonicalLine) (r : List ℕ)
    → join_commas (item_texts (lines_json ls)) ++ (b']' ∷ r) ≡ all_lines ls r
unfolding all_lines join_commas item_texts
all_lines_lem [] r = refl
all_lines_lem (l ∷ []) r = line_text_lem l (b']' ∷ r)
all_lines_lem (l ∷ m ∷ ls) r =
    append_assoc (stable_stringify (line_json l)) _ (b']' ∷ r)
    ∙ line_text_lem l _
    ∙ ap (λ t. line_text l (b',' ∷ t)) (all_lines_lem (m ∷ ls) r)

-- The step of both inductions below.
cons_peel :
    (l m : CanonicalLine) (ls ms : List CanonicalLine) (r s x y : List ℕ)
    → line_text l x ≡ line_text m y
    → (x ≡ y → (ls ≡ ms) × (r ≡ s))
    → (l ∷ ls ≡ m ∷ ms) × (r ≡ s)
cons_peel l m ls ms r s x y e next =
    let (same, rest) = line_text_peel l m x y e in (ap₂ ◌∷◌ same (next rest).0, (next rest).1)

comma-ne-bracket : (r s : List ℕ) → b',' ∷ r ≡ b']' ∷ s → ⊥
comma-ne-bracket r s e = let q : ◌≡◌ {A = ℕ} b',' b']' = head-eq e in omega arith

more_lines_peel :
    (ls ms : List CanonicalLine) (r s : List ℕ)
    → more_lines ls r ≡ more_lines ms s
    → (ls ≡ ms) × (r ≡ s)
unfolding more_lines
more_lines_peel [] [] r s e = (refl, tail-eq e)
more_lines_peel [] (m ∷ ms) r s e = absurd (comma-ne-bracket _ r (sym e))
more_lines_peel (l ∷ ls) [] r s e = absurd (comma-ne-bracket _ s e)
more_lines_peel (l ∷ ls) (m ∷ ms) r s e =
    cons_peel l m ls ms r s _ _ (tail-eq e) (more_lines_peel ls ms r s)

all_lines_peel :
    (ls ms : List CanonicalLine) (r s : List ℕ)
    → all_lines ls r ≡ all_lines ms s
    → (ls ≡ ms) × (r ≡ s)
unfolding all_lines
all_lines_peel [] [] r s e = (refl, tail-eq e)
all_lines_peel [] (m ∷ ms) r s e = absurd (line_text-ne-bracket m _ r (sym e))
all_lines_peel (l ∷ ls) [] r s e = absurd (line_text-ne-bracket l _ s e)
all_lines_peel (l ∷ ls) (m ∷ ms) r s e = cons_peel l m ls ms r s _ _ e (more_lines_peel ls ms r s)

-- The text of a snapshot: its properties in the order of their names.
comparable_form : ComparableInvoice → List ℕ
comparable_form c =
    codes "{\"currency\":"
    ++ (quote c.currency
        ++ (codes ",\"customerName\":"
            ++ (quote c.customer_name
                ++ (codes ",\"docNumber\":"
                    ++ (quote c.doc_number
                        ++ (codes ",\"lifecycle\":"
                            ++ (quote (lifecycle_text c.lifecycle)
                                ++ (codes ",\"lines\":["
                                    ++ (join_commas (item_texts (lines_json c.lines))
                                        ++ (b']'
                                            ∷ (codes ",\"notes\":"
                                                ++ (nullable_text c.notes
                                                    ++ (codes ",\"totalCents\":"
                                                        ++ (number_text c.total_cents
                                                            ++ codes "}"))))))))))))))

comparable_form_with :
    (c : ComparableInvoice) (d : Option String)
    → comparable_text (record c { notes = d }) ≡ comparable_form (record c { notes = d })
unfolding comparable_text comparable_form stable_stringify escape_all escape
comparable_form_with c none = simp append_assoc
comparable_form_with c (some s) = simp append_assoc

lifecycle_of_text : String → Lifecycle
lifecycle_of_text t =
    if str_eq t "voided"
    then Lifecycle.voided
    else if str_eq t "deleted"
    then Lifecycle.deleted
    else active

lifecycle_of_text_lem : (a : Lifecycle) → lifecycle_of_text (lifecycle_text a) ≡ a
unfolding lifecycle_of_text
lifecycle_of_text_lem active = refl
lifecycle_of_text_lem Lifecycle.voided = refl
lifecycle_of_text_lem Lifecycle.deleted = refl

lifecycle_text_inj : (a b : Lifecycle) → lifecycle_text a ≡ lifecycle_text b → a ≡ b
lifecycle_text_inj a b e =
    sym (lifecycle_of_text_lem a) ∙ ap lifecycle_of_text e ∙ lifecycle_of_text_lem b

comparable_form_inj : (a b : ComparableInvoice) → comparable_form a ≡ comparable_form b → a ≡ b
unfolding comparable_form
comparable_form_inj a b e =
    let (currency, e1) = quote_peel _ _ _ _ (append_cancel (codes "{\"currency\":") e) in
    let (customer, e2) = quote_peel _ _ _ _ (append_cancel (codes ",\"customerName\":") e1) in
    let (document, e3) = quote_peel _ _ _ _ (append_cancel (codes ",\"docNumber\":") e2) in
    let (lifecycle, e4) = quote_peel _ _ _ _ (append_cancel (codes ",\"lifecycle\":") e3) in
    let (lines, e5) = all_lines_peel a.lines b.lines _ _ (
      sym (all_lines_lem a.lines _)
      ∙ append_cancel (codes ",\"lines\":[") e4
      ∙ all_lines_lem b.lines _) in
    let (notes, e6) = nullable_text_peel _ _ _ _ (append_cancel (codes ",\"notes\":") e5) in
    let (total, _) =
      number_text_peel _ _ _ _ refl refl (append_cancel (codes ",\"totalCents\":") e6) in
    λ i. record {
      doc_number = document i;
      customer_name = customer i;
      lifecycle = lifecycle_text_inj a.lifecycle b.lifecycle lifecycle i;
      currency = currency i;
      notes = notes i;
      total_cents = total i;
      lines = lines i;
    }

-- Two snapshots have one text only if they agree in every field.
pub comparable_text_inj : (a b : ComparableInvoice) → comparable_text a ≡ comparable_text b → a ≡ b
comparable_text_inj a b e =
    comparable_form_inj a b
      (sym (comparable_form_with a a.notes) ∙ e ∙ comparable_form_with b b.notes)
