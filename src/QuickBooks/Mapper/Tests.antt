-- ===== src/QuickBooks/Mapper/Tests.antt =====
-- A reader of the query language's literals, on names with an apostrophe and with a backslash.
use qbo_invoice_sync.Common.{
  ℕ, ◌≡◌, refl, Bool, true, false, List, [], ◌∷◌, ◌++◌, codes, Option, none, some, ◌==◌, ==_iff,
  arith, if◌then◌else◌,
}
use qbo_invoice_sync.Texts.{escape_quotes}
use qbo_invoice_sync.QuickBooks.Mapper.Literals.{extend, IsLiteralReader, literal_round_trip}

-- The argument tells whether the character before was a backslash.
read_literal : Bool → List ℕ → Option (List ℕ × List ℕ)
read_literal escaped [] = none
read_literal true (c ∷ s) = extend c (read_literal false s)
read_literal false (c ∷ s) =
    let behind = read_literal true s in
    let more = extend c (read_literal false s) in
    if c == 39 then some ([], s) else if c == b'\\' then behind else more

reader_laws : IsLiteralReader (read_literal false)
unfolding read_literal
reader_laws = record {
  closing = λ rest. refl;
  escaped = λ s. refl;
  plain = λ c s other plain.
      let p : (c == 39) ≡ false = grind (arith, ==_iff c 39) in
      let q : (c == b'\\') ≡ false = grind (arith, ==_iff c b'\\') in rw (p, q) refl;
}

literal_round_trip_example :
    read_literal false (escape_quotes (codes "d'A") ++ (39 ∷ codes " OR 1=1"))
    ≡ some (codes "d'A", codes " OR 1=1")
literal_round_trip_example =
    literal_round_trip (read_literal false) reader_laws (codes "d'A") (codes " OR 1=1")
      (omega arith, (omega arith, (omega arith, tt)))

-- A backslash in a name is not escaped: behind one, the literal does not end.
backslash_test : read_literal false (escape_quotes (codes "Acme\\") ++ (39 ∷ [])) ≡ none
unfolding read_literal escape_quotes
backslash_test = refl
