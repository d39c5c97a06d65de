-- ===== src/Json/Quoting.antt =====
-- Quoted strings and numbers read back: two texts that start with one agree only if what was
-- printed, and what follows, does.
use qbo_invoice_sync.Common.{
  ℕ, suc, ◌+◌, ◌-◌, ◌*◌, ◌≡◌, refl, ap, ap₂, sym, ◌∙◌, String, codes, codes_inj, Option, none, some,
  List, [], ◌∷◌, ◌++◌, ◌==◌, ltb, arith, head-eq, tail-eq, append_assoc, if◌then◌else◌, All, ◌≢◌,
}
use qbo_invoice_sync.Common.Int.{ℤ, pos, negsuc}
use qbo_invoice_sync.Decimal.{to_digits}
use qbo_invoice_sync.Decimal.Reading.{
  IsDigit, Stops, to_digits_peel, to_digits-All, to_digits-ne-nil,
}
use qbo_invoice_sync.Json.{escape, escape_all, quote, number_text}

abbrev hex_value : ℕ → ℕ
hex_value c = if ltb c 58 then c - b'0' else c - 87

-- The character behind a backslash, with what follows it.
abbrev unescape : List ℕ → Option (ℕ × List ℕ)
unescape [] = none
unescape (e ∷ r) =
    if e == b'b'
    then some (8, r)
    else if e == b't'
    then some (9, r)
    else if e == b'n'
    then some (10, r)
    else if e == b'f'
    then some (12, r)
    else if e == b'r'
    then some (13, r)
    else if e == b'u'
    then unicode r
    else some (e, r)
  where
    unicode : List ℕ → Option (ℕ × List ℕ)
    unicode (z ∷ y ∷ h ∷ l ∷ s) = some (hex_value h * 16 + hex_value l, s)
    unicode _ = none

-- One character of a quoted string; none at the closing quote.
abbrev read_char : List ℕ → Option (ℕ × List ℕ)
read_char [] = none
read_char (c ∷ r) = if c == b'"' then none else if c == b'\\' then unescape r else some (c, r)

read_char-escape : (c : ℕ) (r : List ℕ) → read_char (escape c ++ r) ≡ some (c, r)
unfolding escape
read_char-escape c r = ground arith

read_char-cons : {c d : ℕ} {r s : List ℕ} → escape c ++ r ≡ escape d ++ s → (c ≡ d) × (r ≡ s)
read_char-cons {c} {d} {r} {s} e =
    let p : ◌≡◌ {A = Option (ℕ × List ℕ)} (some (c, r)) (some (d, s)) =
      sym (read_char-escape c r) ∙ ap read_char e ∙ read_char-escape d s in
    (cc, cc)

no_quote_first : (c : ℕ) (r s : List ℕ) → escape c ++ r ≡ b'"' ∷ s → ⊥
no_quote_first c r s e =
    let p : ◌≡◌ {A = Option (ℕ × List ℕ)} (some (c, r)) none =
      sym (read_char-escape c r) ∙ ap read_char e in
    cc

escape_all_peel :
    (s t r u : List ℕ) → escape_all s ++ (b'"' ∷ r) ≡ escape_all t ++ (b'"' ∷ u) → (s ≡ t) × (r ≡ u)
unfolding escape_all
escape_all_peel [] [] r u e = (refl, tail-eq e)
escape_all_peel [] (d ∷ t) r u e =
    absurd (no_quote_first d _ r (sym (e ∙ append_assoc (escape d) (escape_all t) _)))
escape_all_peel (c ∷ s) [] r u e =
    absurd (no_quote_first c _ u (sym (append_assoc (escape c) (escape_all s) _) ∙ e))
escape_all_peel (c ∷ s) (d ∷ t) r u e =
    let (same, rest) = read_char-cons (
      sym (append_assoc (escape c) (escape_all s) _)
      ∙ e
      ∙ append_assoc (escape d) (escape_all t) _) in
    let (tails, after) = escape_all_peel s t r u rest in (ap₂ ◌∷◌ same tails, after)

pub quote_peel : (s t : String) (r u : List ℕ) → quote s ++ r ≡ quote t ++ u → (s ≡ t) × (r ≡ u)
unfolding quote
quote_peel s t r u e =
    let (same, rest) = escape_all_peel (codes s) (codes t) r u (
      sym (append_assoc (escape_all (codes s)) (b'"' ∷ []) r)
      ∙ tail-eq e
      ∙ append_assoc (escape_all (codes t)) (b'"' ∷ []) u) in
    (codes_inj s t same, rest)

-- A numeral does not begin with a minus sign.
no_minus_first : (n : ℕ) (r s : List ℕ) → to_digits n ++ r ≡ b'-' ∷ s → ⊥
no_minus_first n r s e = go (to_digits n) (to_digits-All n) (to_digits-ne-nil n) e
  where
    go : (ds : List ℕ) → All IsDigit ds → ds ≢ [] → ds ++ r ≡ b'-' ∷ s → ⊥
    go [] h ne e' = ne refl
    go (d ∷ ds) h ne e' = let q : d ≡ b'-' = head-eq e' in ground arith

pub number_text_peel :
    (a b : ℤ) (r s : List ℕ)
    → Stops r
    → Stops s
    → number_text a ++ r ≡ number_text b ++ s
    → (a ≡ b) × (r ≡ s)
unfolding number_text
number_text_peel (pos m) (pos n) r s hr hs e =
    let (same, rest) = to_digits_peel m n r s hr hs e in (ap pos same, rest)
number_text_peel (pos m) (negsuc n) r s hr hs e = absurd (no_minus_first m r _ e)
number_text_peel (negsuc m) (pos n) r s hr hs e = absurd (no_minus_first n s _ (sym e))
number_text_peel (negsuc m) (negsuc n) r s hr hs e =
    let (same, rest) = to_digits_peel (suc m) (suc n) r s hr hs (tail-eq e) in (cc, rest)
