-- ===== src/Decimal.antt =====
-- Decimal numerals, as JavaScript prints (`String(n)`, a template) and reads (`Number(s)`) a
-- non-negative safe integer. Both are the language's own; src/models/money.ts and
-- src/models/invoice.ts build on them.
pub mod Reading
use qbo_invoice_sync.Common.{
  ℕ, zero, suc, ◌+◌, ◌-◌, ◌*◌, ◌/◌, ◌%◌, Bool, ◌&&◌, List, [], ◌∷◌, ltb, leb, if◌then◌else◌,
}

abbrev pub is_digit : ℕ → Bool
is_digit c = leb b'0' c && leb c b'9'

-- The digits of `n` in front of `acc`; the fuel bounds their number.
unfoldable pub digits_loop : ℕ → ℕ → List ℕ → List ℕ
digits_loop zero n acc = acc
digits_loop (suc f) n acc =
    let rest = digits_loop f (n / 10) ((b'0' + n % 10) ∷ acc) in
    if ltb n 10 then (b'0' + n) ∷ acc else rest

unfoldable pub to_digits : ℕ → List ℕ
unfolding digits_loop
to_digits n = digits_loop (suc n) n []

-- The value of a run of digits, after a number `acc` already read.
abbrev pub digits_value : ℕ → List ℕ → ℕ
digits_value acc [] = acc
digits_value acc (c ∷ cs) = digits_value (acc * 10 + (c - b'0')) cs

-- `\d*` at the start of a text, and what is left behind it
abbrev pub digit_run : List ℕ → List ℕ
digit_run [] = []
digit_run (c ∷ r) = if is_digit c then c ∷ digit_run r else []

abbrev pub after_run : List ℕ → List ℕ
after_run [] = []
after_run (c ∷ r) = if is_digit c then after_run r else c ∷ r
