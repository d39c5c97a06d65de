-- ===== src/Texts.antt =====
-- Functions on strings that are the language's own: `toLowerCase` of Latin letters, `includes`,
-- `replace` of an apostrophe, and the printing of an integer.
use Prim.Native.Char.{Char, code}
use Prim.Native.String.{◌++◌ as text_append}
use qbo_invoice_sync.Common.{
  ℕ, zero, suc, ◌-◌, ◌≡◌, refl, Bool, true, false, ◌&&◌, ◌||◌, List, [], ◌∷◌, String, leb, ◌==◌,
  if◌then◌else◌,
}
use qbo_invoice_sync.Common.Int.{ℤ, pos, negsuc}
use qbo_invoice_sync.Decimal.{to_digits}

-- The character at a place, or the given one.
abbrev pub nth_char : Char → ℕ → String → Char
nth_char d n String.[] = d
nth_char d zero (String.◌∷◌ c s) = c
nth_char d (suc n) (String.◌∷◌ c s) = nth_char d n s

abbrev pub lower_char : Char → Char
lower_char c =
    if leb b'A' (code c) && leb (code c) b'Z'
    then nth_char c (code c - b'A') "abcdefghijklmnopqrstuvwxyz"
    else c

-- `text.toLowerCase()`
unfoldable pub lower : String → String
lower String.[] = String.[]
lower (String.◌∷◌ c s) = String.◌∷◌ (lower_char c) (lower s)

abbrev pub is_prefix : List ℕ → List ℕ → Bool
is_prefix [] s = true
is_prefix (p ∷ ps) [] = false
is_prefix (p ∷ ps) (c ∷ s) = p == c && is_prefix ps s

-- `text.includes(part)`
unfoldable pub includes_text : List ℕ → List ℕ → Bool
includes_text part [] = is_prefix part []
includes_text part (c ∷ s) = is_prefix part (c ∷ s) || includes_text part s

-- `text.replace(/'/g, "\\'")`
unfoldable pub escape_quotes : List ℕ → List ℕ
escape_quotes [] = []
escape_quotes (c ∷ s) = if c == 39 then b'\\' ∷ 39 ∷ escape_quotes s else c ∷ escape_quotes s

abbrev pub digit_char : ℕ → Char
digit_char c = nth_char "0" (c - b'0') "0123456789"

abbrev pub digits_text : List ℕ → String
digits_text [] = String.[]
digits_text (c ∷ cs) = String.◌∷◌ (digit_char c) (digits_text cs)

-- `${number}` of an integer
unfoldable pub print : ℤ → String
print (pos n) = digits_text (to_digits n)
print (negsuc n) = text_append "-" (digits_text (to_digits (suc n)))

print_test : print (negsuc 41) ≡ "-42"
unfolding print to_digits
print_test = refl

lower_test : lower "InvoICE-1" ≡ "invoice-1"
unfolding lower
lower_test = refl
