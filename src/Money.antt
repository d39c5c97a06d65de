-- ===== src/Money.antt =====
-- Money at the edges (src/models/money.ts): cents to decimal text and back. Texts are lists of
-- code points. A `number` argument is turned into text by `toFixed(2)`, the language's own, before
-- it is read; the model starts at the text.
pub mod RoundTrip
mod Tests
use qbo_invoice_sync.Common.{
  ℕ, ◌+◌, ◌-◌, ◌*◌, ◌/◌, ◌%◌, ◌^◌, Bool, true, false, ◌&&◌, ◌||◌, Option, none, some, List, [], ◌∷◌,
  ◌++◌, take, ltb, leb, ◌==◌, if◌then◌else◌,
}
use mathlib.Core.List.{reverse}
use qbo_invoice_sync.Common.Int.{ℤ, pos, negsuc, neg_ℤ, pos_part, neg_part, ltb_ℤ}
use qbo_invoice_sync.Decimal.{to_digits, digits_value, digit_run, after_run}
use qbo_invoice_sync.Errors.{SyncError, plain_error, Result, ok, err}

-- `Number.MAX_SAFE_INTEGER`
abbrev pub max_safe : ℕ
max_safe = 2 ^ 53 - 1

-- `Math.abs(cents)`
abbrev pub abs_ℤ : ℤ → ℕ
abs_ℤ z = pos_part z + neg_part z

-- `Number.isSafeInteger(cents)`
abbrev pub is_safe_integer : ℤ → Bool
is_safe_integer z = leb (abs_ℤ z) max_safe

abbrev pub not_cents : SyncError
not_cents = record { kind = plain_error; message = "amount is not an integer number of cents" }

abbrev pub not_money : SyncError
not_money = record { kind = plain_error; message = "cannot parse money value" }

abbrev pub unsafe_money : SyncError
unsafe_money = record { kind = plain_error; message = "money value out of safe range" }

-- `text.padStart(2, "0")`
abbrev pub pad_start : List ℕ → List ℕ
pad_start [] = b'0' ∷ b'0' ∷ []
pad_start (c ∷ []) = b'0' ∷ c ∷ []
pad_start (c ∷ d ∷ s) = c ∷ d ∷ s

-- `text.padEnd(2, "0")`
abbrev pub pad_end : List ℕ → List ℕ
pad_end [] = b'0' ∷ b'0' ∷ []
pad_end (c ∷ []) = c ∷ b'0' ∷ []
pad_end (c ∷ d ∷ s) = c ∷ d ∷ s

abbrev pub sign_text : Bool → List ℕ
sign_text true = b'-' ∷ []
sign_text false = []

unfoldable pub cents_to_decimal_string : ℤ → Result (List ℕ)
cents_to_decimal_string cents =
    if is_safe_integer cents
    then ok (
        sign_text (ltb_ℤ cents (pos 0))
        ++ (to_digits (abs_ℤ cents / 100) ++ (b'.' ∷ pad_start (to_digits (abs_ℤ cents % 100)))))
    else err not_cents

-- The white space that `trim` removes.
unfoldable pub is_space : ℕ → Bool
is_space c =
    (leb 9 c && leb c 13)
    || (c == 32)
    || (c == 160)
    || (c == 0x1680)
    || (leb 0x2000 c && leb c 0x200A)
    || (c == 0x2028)
    || (c == 0x2029)
    || (c == 0x202F)
    || (c == 0x205F)
    || (c == 0x3000)
    || (c == 0xFEFF)

unfoldable pub trim_start : List ℕ → List ℕ
unfolding is_space
trim_start [] = []
trim_start (c ∷ s) = if is_space c then trim_start s else c ∷ s

-- `value.trim()`
unfoldable pub trim : List ℕ → List ℕ
unfolding trim_start
trim s = reverse (trim_start (reverse (trim_start s)))

-- The groups of the match: whether there is a minus sign, the units, and up to two decimals.
pub record MoneyMatch : Type 0 where
  pub negative : Bool
  pub units : List ℕ
  pub decimals : List ℕ

-- `(?:\.(\d{1,2})\d*)?$` behind the units
abbrev pub match_decimals : Bool → List ℕ → List ℕ → Option MoneyMatch
match_decimals neg units [] = some (record { negative = neg; units = units; decimals = [] })
match_decimals neg units (c ∷ r) =
    if c == b'.'
    then elim (digit_run r) [
      | [] ↦ none
      | d ∷ ds ↦ elim (after_run r) [
        | [] ↦ some (record { negative = neg; units = units; decimals = take 2 (d ∷ ds) })
        | x ∷ xs ↦ none
      ]
    ]
    else none

-- `(\d+)` and the rest
abbrev pub match_units : Bool → List ℕ → Option MoneyMatch
match_units neg s = elim (digit_run s) [
  | [] ↦ none
  | d ∷ ds ↦ match_decimals neg (d ∷ ds) (after_run s)
]

-- `/^(-?)(\d+)(?:\.(\d{1,2})\d*)?$/.exec(str)`
abbrev pub match_money : List ℕ → Option MoneyMatch
match_money [] = none
match_money (c ∷ s) = if c == b'-' then match_units true s else match_units false (c ∷ s)

abbrev pub cents_of : MoneyMatch → ℕ
cents_of m = digits_value 0 m.units * 100 + digits_value 0 (pad_end m.decimals)

-- What is done with the outcome of the match.
abbrev pub read_match : Option MoneyMatch → Result ℤ
read_match none = err not_money
read_match (some m) =
    if leb (cents_of m) max_safe
    then ok (if m.negative then neg_ℤ (pos (cents_of m)) else pos (cents_of m))
    else err unsafe_money

unfoldable pub decimal_string_to_cents : List ℕ → Result ℤ
unfolding trim
decimal_string_to_cents value = read_match (match_money (trim value))
