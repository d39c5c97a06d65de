-- ===== src/Money/Tests.antt =====
-- Money printed and read, and the theorems at concrete amounts.
use qbo_invoice_sync.Common.{ℕ, ◌≡◌, refl, codes, List, arith}
use qbo_invoice_sync.Common.Int.{pos, negsuc}
use qbo_invoice_sync.Decimal.{to_digits}
use qbo_invoice_sync.Errors.{ok, err}
use qbo_invoice_sync.Money.{
  cents_to_decimal_string, decimal_string_to_cents, not_money, unsafe_money, not_cents,
}
use qbo_invoice_sync.Money.RoundTrip.{cents_round_trip}

printed :
    (cents_to_decimal_string (negsuc 4) ≡ ok (codes "-0.05"))
    × (cents_to_decimal_string (pos 1234567) ≡ ok (codes "12345.67"))
    × (cents_to_decimal_string (pos 9007199254740992) ≡ err not_cents)
unfolding cents_to_decimal_string to_digits
printed = (refl, refl, refl)

parsed :
    (decimal_string_to_cents (codes " 10.5 ") ≡ ok (pos 1050))
    × (decimal_string_to_cents (codes "-3") ≡ ok (negsuc 299))
    × (decimal_string_to_cents (codes "1.999") ≡ ok (pos 199))
    × (decimal_string_to_cents (codes "1.") ≡ err not_money)
    × (decimal_string_to_cents (codes "1,5") ≡ err not_money)
    × (decimal_string_to_cents (codes "99999999999999999") ≡ err unsafe_money)
unfolding decimal_string_to_cents
parsed = (refl, refl, refl, refl, refl, refl)

cents_round_trip_example :
    (s : List ℕ) × (cents_to_decimal_string (negsuc 4) ≡ ok s)
    × (decimal_string_to_cents s ≡ ok (negsuc 4))
cents_round_trip_example = cents_round_trip (negsuc 4) (omega arith)
