-- ===== src/Invoice/Snapshots/Line.antt =====
-- The text of one line determines the line, and where it ends.
use qbo_invoice_sync.Common.{
  ℕ, ◌≡◌, refl, sym, ap, String, codes, Option, none, some, List, ◌∷◌, ◌++◌, arith, head-eq,
  append_assoc, append_cancel,
}
use qbo_invoice_sync.Common.Int.{pos}
use qbo_invoice_sync.Json.{stable_stringify, quote, number_text, escape, escape_all}
use qbo_invoice_sync.Json.Quoting.{quote_peel, number_text_peel}
use qbo_invoice_sync.Invoice.{CanonicalLine, line_json}

abbrev pub nullable_text : Option String → List ℕ
nullable_text none = codes "null"
nullable_text (some s) = quote s

quote-ne-null : (t : String) (r s : List ℕ) → quote t ++ r ≡ codes "null" ++ s → ⊥
unfolding quote
quote-ne-null t r s e = cc

pos_inj : {m n : ℕ} → pos m ≡ pos n → m ≡ n
pos_inj e = cc

-- The text of a line: its properties in the order of their names.
pub line_text : CanonicalLine → List ℕ → List ℕ
line_text l r =
    codes "{\"amountCents\":"
    ++ (number_text l.amount_cents
        ++ (codes ",\"description\":"
            ++ (nullable_text l.description
                ++ (codes ",\"itemCode\":"
                    ++ (quote l.item_code
                        ++ (codes ",\"lineNo\":"
                            ++ (number_text (pos l.line_no)
                                ++ (codes ",\"quantity\":"
                                    ++ (number_text l.quantity
                                        ++ (codes ",\"unitPriceCents\":"
                                            ++ (number_text l.unit_price_cents
                                                ++ (codes "}" ++ r))))))))))))

-- The entries are known once the description is: `null` or a text.
line_text_with :
    (l : CanonicalLine) (d : Option String) (r : List ℕ)
    → stable_stringify (line_json (record l { description = d })) ++ r
      ≡ line_text (record l { description = d }) r
unfolding line_text stable_stringify escape_all escape
line_text_with l none r = simp append_assoc
line_text_with l (some s) r = simp append_assoc

pub line_text_lem :
    (l : CanonicalLine) (r : List ℕ) → stable_stringify (line_json l) ++ r ≡ line_text l r
line_text_lem l r = line_text_with l l.description r

pub nullable_text_peel :
    (a b : Option String) (r s : List ℕ)
    → nullable_text a ++ r ≡ nullable_text b ++ s
    → (a ≡ b) × (r ≡ s)
nullable_text_peel none none r s e = (refl, append_cancel (codes "null") e)
nullable_text_peel none (some t) r s e = absurd (quote-ne-null t s r (sym e))
nullable_text_peel (some t) none r s e = absurd (quote-ne-null t r s e)
nullable_text_peel (some t) (some u) r s e =
    let (same, rest) = quote_peel t u r s e in (ap some same, rest)

pub line_text_peel :
    (l m : CanonicalLine) (r s : List ℕ) → line_text l r ≡ line_text m s → (l ≡ m) × (r ≡ s)
unfolding line_text
line_text_peel l m r s e =
    let (amount, e1) =
      number_text_peel _ _ _ _ refl refl (append_cancel (codes "{\"amountCents\":") e) in
    let (description, e2) =
      nullable_text_peel _ _ _ _ (append_cancel (codes ",\"description\":") e1) in
    let (item, e3) = quote_peel _ _ _ _ (append_cancel (codes ",\"itemCode\":") e2) in
    let (number, e4) =
      number_text_peel _ _ _ _ refl refl (append_cancel (codes ",\"lineNo\":") e3) in
    let (quantity, e5) =
      number_text_peel _ _ _ _ refl refl (append_cancel (codes ",\"quantity\":") e4) in
    let (price, e6) =
      number_text_peel _ _ _ _ refl refl (append_cancel (codes ",\"unitPriceCents\":") e5) in
    (
      λ i. record {
        line_no = pos_inj number i;
        item_code = item i;
        description = description i;
        quantity = quantity i;
        unit_price_cents = price i;
        amount_cents = amount i;
      },
      append_cancel (codes "}") e6,
    )

pub line_text-ne-bracket : (l : CanonicalLine) (r s : List ℕ) → line_text l r ≡ b']' ∷ s → ⊥
unfolding line_text
line_text-ne-bracket l r s e = let q : ◌≡◌ {A = ℕ} b'{' b']' = head-eq e in omega arith
