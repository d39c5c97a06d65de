-- ===== src/Numbers.antt =====
-- Numbers with a fraction, as they cross the border to an accounting system: `Number(text)`,
-- `value.toFixed(2)` of src/models/money.ts and `Math.round(value)` of
-- src/providers/quickbooks/qboMapper.ts are the language's, in exact arithmetic.
pub mod Printed
use qbo_invoice_sync.Common.{
  ℕ, ◌+◌, ◌-◌, ◌*◌, ◌/◌, ◌%◌, ◌^◌, true, false, List, [], ◌∷◌, ◌++◌, length, ◌==◌, if◌then◌else◌,
}
use qbo_invoice_sync.Common.Int.{ℤ, pos, negsuc, neg_ℤ, ltb_ℤ}
use qbo_invoice_sync.Decimal.{to_digits, digits_value, digit_run, after_run}
use qbo_invoice_sync.Errors.{Result}
use qbo_invoice_sync.Money.{abs_ℤ, pad_start, sign_text, decimal_string_to_cents}

-- `mantissa` / 10 ^ `scale`
pub record Number : Type 0 where
  pub mantissa : ℤ
  pub scale : ℕ

abbrev pub whole : ℤ → Number
whole z = record { mantissa = z; scale = 0 }

-- The fraction behind the units that were read.
abbrev pub read_fraction : ℕ → List ℕ → Number
read_fraction units [] = whole (pos units)
read_fraction units (c ∷ r) = record {
  mantissa = pos (digits_value units (digit_run r));
  scale = length (digit_run r);
}

abbrev pub read_unsigned : List ℕ → Number
read_unsigned s = read_fraction (digits_value 0 (digit_run s)) (after_run s)

abbrev pub negate : Number → Number
negate n = record n { mantissa = neg_ℤ n.mantissa }

-- `Number(text)` of a decimal numeral
unfoldable pub number : List ℕ → Number
number [] = whole (pos 0)
number (c ∷ s) = if c == b'-' then negate (read_unsigned s) else read_unsigned (c ∷ s)

-- The hundredths nearest to `m` / 10 ^ `s`, the larger of two.
abbrev pub hundredths : ℕ → ℕ → ℕ
hundredths m s = (200 * m + 10 ^ s) / (2 * 10 ^ s)

-- `value.toFixed(2)`, below 10^21
unfoldable pub to_fixed : Number → List ℕ
to_fixed n =
    let h = hundredths (abs_ℤ n.mantissa) n.scale in
    sign_text (ltb_ℤ n.mantissa (pos 0))
    ++ (to_digits (h / 100) ++ (b'.' ∷ pad_start (to_digits (h % 100))))

-- `decimalStringToCents(value)` of a number
unfoldable pub number_to_cents : Number → Result ℤ
unfolding to_fixed
number_to_cents n = decimal_string_to_cents (to_fixed n)

-- The nearest integer, the larger of two.
unfoldable pub round_mantissa : ℤ → ℕ → ℤ
round_mantissa (pos m) s = pos ((2 * m + 10 ^ s) / (2 * 10 ^ s))
round_mantissa (negsuc m) s = neg_ℤ (pos ((2 * (m + 1) - 10 ^ s + (2 * 10 ^ s - 1)) / (2 * 10 ^ s)))

-- `Math.round(value)`
unfoldable pub round : Number → ℤ
unfolding round_mantissa
round n = round_mantissa n.mantissa n.scale
