-- ===== src/Numbers/Printed.antt =====
-- An amount that is sent as a number is read back as it.
use qbo_invoice_sync.Common.{
  ℕ, ◌+◌, ◌/◌, ◌%◌, ◌≤◌, ◌≡◌, refl, sym, ap, ap₂, length, ◌≢◌, ◌<◌, if◌then◌else◌, ◌∙◌, Bool, true,
  false, List, [], ◌∷◌, ◌++◌, arith, ◌==◌, All,
}
use qbo_invoice_sync.Common.Int.{ℤ, pos, ltb_ℤ, neg_ℤ}
use qbo_invoice_sync.Decimal.{to_digits, digits_value, digit_run}
use qbo_invoice_sync.Decimal.Reading.{
  IsDigit, to_digits-All, to_digits-ne-nil, digits_value-to_digits, digit_run-append,
  after_run-append,
}
use qbo_invoice_sync.Errors.{ok}
use qbo_invoice_sync.Money.{
  max_safe, abs_ℤ, sign_text, pad_start, cents_to_decimal_string, decimal_string_to_cents,
}
use qbo_invoice_sync.Money.RoundTrip.{cents_round_trip, pad_start-to_digits}
use qbo_invoice_sync.Numbers.{
  read_unsigned, read_fraction, negate, number, to_fixed, number_to_cents,
}

-- The printed amount, and the number that it denotes.
abbrev printed : Bool → ℕ → List ℕ
printed neg a = sign_text neg ++ (to_digits (a / 100) ++ (b'.' ∷ pad_start (to_digits (a % 100))))

two_digits :
    (x y : ℕ)
    → x < 10
    → y < 10
    → digit_run ((b'0' + x) ∷ (b'0' + y) ∷ []) ≡ (b'0' + x) ∷ (b'0' + y) ∷ []
two_digits x y hx hy = ground arith

read_printed :
    (a : ℕ)
    → read_unsigned (to_digits (a / 100) ++ (b'.' ∷ pad_start (to_digits (a % 100))))
      ≡ record { mantissa = pos a; scale = 2 }
read_printed a =
    let x = a % 100 / 10 in
    let y = a % 100 % 10 in
    let behind : List ℕ = b'.' ∷ (b'0' + x) ∷ (b'0' + y) ∷ [] in
    ap (λ d. read_unsigned (to_digits (a / 100) ++ (b'.' ∷ d)))
      (pad_start-to_digits (a % 100) (omega arith))
    ∙ ap₂ (λ u r. read_fraction (digits_value 0 u) r)
        (digit_run-append (to_digits (a / 100)) behind (to_digits-All (a / 100)) refl)
        (after_run-append (to_digits (a / 100)) behind (to_digits-All (a / 100)) refl)
    ∙ ap₂ (λ u ds. record { mantissa = pos (digits_value u ds); scale = length ds })
        (digits_value-to_digits (a / 100)) (two_digits x y (omega arith) (omega arith))
    ∙ ap (λ m. record { mantissa = pos m; scale = 2 }) (omega arith)

number_plain : (c : ℕ) (s : List ℕ) → (c == b'-') ≡ false → number (c ∷ s) ≡ read_unsigned (c ∷ s)
unfolding number
number_plain c s h = rw h

number_minus : (s : List ℕ) → number (b'-' ∷ s) ≡ negate (read_unsigned s)
unfolding number
number_minus s = refl

number_digits : (u r : List ℕ) → All IsDigit u → u ≢ [] → number (u ++ r) ≡ read_unsigned (u ++ r)
number_digits [] r h ne = absurd (ne refl)
number_digits (d ∷ ds) r h ne = number_plain d (ds ++ r) (ground arith)

cents_read_back :
    (neg : Bool) (a : ℕ)
    → number (printed neg a) ≡ (
        if neg
        then record { mantissa = neg_ℤ (pos a); scale = 2 }
        else record { mantissa = pos a; scale = 2 })
cents_read_back true a = number_minus _ ∙ ap negate (read_printed a)
cents_read_back false a =
    number_digits (to_digits (a / 100)) _ (to_digits-All (a / 100)) (to_digits-ne-nil (a / 100))
    ∙ read_printed a

number_sent :
    (z : ℤ) → number (printed (ltb_ℤ z (pos 0)) (abs_ℤ z)) ≡ record { mantissa = z; scale = 2 }
number_sent z = cents_read_back (ltb_ℤ z (pos 0)) (abs_ℤ z) ∙ ground arith

to_fixed_cents :
    (z : ℤ) → to_fixed (record { mantissa = z; scale = 2 }) ≡ printed (ltb_ℤ z (pos 0)) (abs_ℤ z)
unfolding to_fixed
to_fixed_cents z = ap (λ h. printed (ltb_ℤ z (pos 0)) h) (omega arith)

printed_lem :
    (z : ℤ) {s : List ℕ}
    → cents_to_decimal_string z ≡ ok s
    → s ≡ printed (ltb_ℤ z (pos 0)) (abs_ℤ z)
unfolding cents_to_decimal_string
printed_lem z e = ground arith

-- A safe amount that is printed and sent as a number is read back as the same amount.
pub number_round_trip :
    (z : ℤ)
    → abs_ℤ z ≤ max_safe
    → (s : List ℕ) × (cents_to_decimal_string z ≡ ok s) × (number_to_cents (number s) ≡ ok z)
unfolding number_to_cents
number_round_trip z h =
    let (s, prints, reads) = cents_round_trip z h in
    let same = printed_lem z prints in
    (
      s,
      prints,
      ap decimal_string_to_cents (
            ap (λ x. to_fixed (number x)) same
            ∙ ap to_fixed (number_sent z)
            ∙ to_fixed_cents z
            ∙ sym same)
          ∙ reads,
    )
