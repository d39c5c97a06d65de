-- ===== src/QuickBooks/Mapper/Literals.antt =====
-- The names that src/providers/quickbooks/qboMapper.ts and qboProvider.ts put into a query. How the
-- query language reads a literal is a parameter, with what is documented of it.
use qbo_invoice_sync.Common.{
  ℕ, ◌≡◌, ◌≢◌, refl, ap, inl, inr, ◌∙◌, Bool-cases, List, [], ◌∷◌, ◌++◌, All, Option, none, some,
  ◌==◌, ==_iff, arith, if◌then◌else◌,
}
use qbo_invoice_sync.Texts.{escape_quotes}

abbrev pub extend : ℕ → Option (List ℕ × List ℕ) → Option (List ℕ × List ℕ)
extend c none = none
extend c (some (value, rest)) = some (c ∷ value, rest)

-- A reader of a literal behind its opening apostrophe, with the value and what follows the literal: an
-- apostrophe ends it, unless a backslash stands before; other characters are themselves.
pub record IsLiteralReader (read : List ℕ → Option (List ℕ × List ℕ)) : Type 0 where
  pub closing : (rest : List ℕ) → read (39 ∷ rest) ≡ some ([], rest)
  pub escaped : (s : List ℕ) → read (b'\\' ∷ 39 ∷ s) ≡ extend 39 (read s)
  pub plain : (c : ℕ) (s : List ℕ) → c ≢ 39 → c ≢ b'\\' → read (c ∷ s) ≡ extend c (read s)

escape_quotes-cons :
    (c : ℕ) (s : List ℕ)
    → escape_quotes (c ∷ s)
      ≡ (if c == 39 then b'\\' ∷ 39 ∷ escape_quotes s else c ∷ escape_quotes s)
unfolding escape_quotes
escape_quotes-cons c s = refl

-- A name without a backslash is read, by a reader of the query language's literals, as the name that
-- was put in, and its literal ends where the program ends it, whatever apostrophes are in it.
pub literal_round_trip :
    (read : List ℕ → Option (List ℕ × List ℕ))
    → IsLiteralReader read
    → (name rest : List ℕ) → All (λ c. c ≢ b'\\') name
    → read (escape_quotes name ++ (39 ∷ rest)) ≡ some (name, rest)
literal_round_trip read k [] rest h = unfold escape_quotes in k.closing rest
literal_round_trip read k (c ∷ name) rest h =
    rw (escape_quotes-cons c name) (elim (Bool-cases (c == 39)) [
      | inl quote ↦ rw quote (
          let same : c ≡ 39 = ground arith in
          rw same (k.escaped _ ∙ ap (extend 39) (literal_round_trip read k name rest h.1)))
      | inr other ↦
          let kept : c ≢ 39 = grind (arith, ==_iff c 39) in
          rw other (k.plain c _ kept h.0 ∙ ap (extend c) (literal_round_trip read k name rest h.1))
    ])
