-- ===== src/Money/RoundTrip.antt =====
-- Printing an amount and reading the text gives the amount back.
use mathlib.Core.List.{reverse, reverse-append, reverse-reverse}
use qbo_invoice_sync.Common.{
  ℕ, zero, suc, ◌+◌, ◌/◌, ◌%◌, ◌≤◌, ◌<◌, ◌≡◌, ◌≢◌, refl, sym, ap, ◌∙◌, Bool, true, false, some,
  List, [], ◌∷◌, ◌++◌, append_assoc, arith, ltb, ◌==◌, inl, inr, Bool-cases, All, if◌then◌else◌,
}
use qbo_invoice_sync.Common.Int.{ℤ, pos, neg_ℤ, ltb_ℤ}
use qbo_invoice_sync.Decimal.{digits_loop, to_digits}
use qbo_invoice_sync.Decimal.Reading.{
  IsDigit, Stops, to_digits-All, to_digits-ne-nil, digits_value-to_digits, digit_run-append,
  after_run-append,
}
use qbo_invoice_sync.Errors.{ok}
use qbo_invoice_sync.Money.{
  max_safe, abs_ℤ, pad_start, sign_text, cents_to_decimal_string, is_space, trim_start, trim,
  match_decimals, match_units, match_money, cents_of, read_match, decimal_string_to_cents,
}

to_digits_small : (n : ℕ) → n < 10 → to_digits n ≡ (b'0' + n) ∷ []
unfolding to_digits digits_loop
to_digits_small n h = ground arith

digits_loop_small :
    (f n : ℕ) (acc : List ℕ) → n < 10 → 0 < f → digits_loop f n acc ≡ (b'0' + n) ∷ acc
unfolding digits_loop
digits_loop_small zero n acc h k = absurd (omega arith)
digits_loop_small (suc f) n acc h k = ground arith

to_digits_two : (n : ℕ) → 10 ≤ n → n < 100 → to_digits n ≡ (b'0' + n / 10) ∷ (b'0' + n % 10) ∷ []
unfolding to_digits digits_loop
to_digits_two n h k =
    ground (arith, digits_loop_small n (n / 10) ((b'0' + n % 10) ∷ []) (omega arith) (omega arith))

-- The two digits behind the point.
pub pad_start-to_digits :
    (n : ℕ) → n < 100 → pad_start (to_digits n) ≡ (b'0' + n / 10) ∷ (b'0' + n % 10) ∷ []
pad_start-to_digits n h = elim (Bool-cases (ltb n 10)) [
  | inl small ↦ rw (to_digits_small n (ground arith)) (ground arith)
  | inr large ↦ rw (to_digits_two n (ground arith) h)
]

digit-not-space : (c : ℕ) → IsDigit c → is_space c ≡ false
unfolding is_space
digit-not-space c h = ground arith

trim_lem : (s : List ℕ) → trim s ≡ reverse (trim_start (reverse (trim_start s)))
unfolding trim
trim_lem s = refl

trim_start_fixed : (c : ℕ) (s : List ℕ) → is_space c ≡ false → trim_start (c ∷ s) ≡ c ∷ s
unfolding trim_start
trim_start_fixed c s h = unfold is_space in rw h

-- A text whose ends are no spaces is left as it is.
trim_fixed :
    (c : ℕ) (s t : List ℕ) (d : ℕ)
    → is_space c ≡ false
    → is_space d ≡ false
    → c ∷ s ≡ t ++ (d ∷ [])
    → trim (c ∷ s) ≡ c ∷ s
trim_fixed c s t d hc hd e =
    trim_lem (c ∷ s)
    ∙ ap (λ x. reverse (trim_start (reverse x))) (trim_start_fixed c s hc ∙ e)
    ∙ ap (λ x. reverse (trim_start x)) (reverse-append t (d ∷ []))
    ∙ ap reverse (trim_start_fixed d (reverse t) hd)
    ∙ ap reverse (sym (reverse-append t (d ∷ [])))
    ∙ reverse-reverse (t ++ d ∷ [])
    ∙ sym e

match_units_lem :
    (neg : Bool) (u r : List ℕ)
    → All IsDigit u
    → u ≢ []
    → Stops r
    → match_units neg (u ++ r) ≡ match_decimals neg u r
match_units_lem neg [] r h ne s = absurd (ne refl)
match_units_lem neg (d ∷ ds) r h ne s =
    rw (digit_run-append (d ∷ ds) r h s, match_units) (rw (after_run-append (d ∷ ds) r h s))

match_decimals_two :
    (neg : Bool) (u : List ℕ) (p q : ℕ)
    → IsDigit p
    → IsDigit q
    → match_decimals neg u (b'.' ∷ p ∷ q ∷ [])
      ≡ some (record { negative = neg; units = u; decimals = p ∷ q ∷ [] })
match_decimals_two neg u p q hp hq = ground arith

match_money_lem :
    (neg : Bool) (u r : List ℕ)
    → All IsDigit u
    → u ≢ []
    → Stops r
    → match_money (sign_text neg ++ (u ++ r)) ≡ match_decimals neg u r
match_money_lem true u r h ne s = match_units_lem true u r h ne s
match_money_lem false [] r h ne s = absurd (ne refl)
match_money_lem false (d ∷ ds) r h ne s =
    let plain : (d == b'-') ≡ false = ground arith in
    rw plain (match_units_lem false (d ∷ ds) r h ne s)

trim_money :
    (neg : Bool) (u t : List ℕ) (q : ℕ)
    → All IsDigit u
    → u ≢ []
    → IsDigit q
    → trim (sign_text neg ++ (u ++ (t ++ (q ∷ [])))) ≡ sign_text neg ++ (u ++ (t ++ (q ∷ [])))
trim_money true u t q h ne hq =
    trim_fixed b'-' (u ++ (t ++ q ∷ [])) (b'-' ∷ (u ++ t)) q (unfold is_space in refl)
      (digit-not-space q hq) (ap (λ x. b'-' ∷ x) (sym (append_assoc u t (q ∷ []))))
trim_money false [] t q h ne hq = absurd (ne refl)
trim_money false (d ∷ ds) t q h ne hq =
    trim_fixed d (ds ++ (t ++ q ∷ [])) (d ∷ (ds ++ t)) q (digit-not-space d h.0)
      (digit-not-space q hq) (ap (λ x. d ∷ x) (sym (append_assoc ds t (q ∷ []))))

cents_parts :
    (a : ℕ) (neg : Bool)
    → cents_of (record {
      negative = neg;
      units = to_digits (a / 100);
      decimals = (b'0' + a % 100 / 10) ∷ (b'0' + a % 100 % 10) ∷ [];
    })
      ≡ a
cents_parts a neg = rw (digits_value-to_digits (a / 100)) (omega arith)

decimal_string_lem : (s : List ℕ) → decimal_string_to_cents s ≡ read_match (match_money (trim s))
unfolding decimal_string_to_cents
decimal_string_lem s = refl

parse_digits :
    (neg : Bool) (a p q : ℕ)
    → IsDigit p
    → IsDigit q
    → decimal_string_to_cents (sign_text neg ++ (to_digits a ++ (b'.' ∷ p ∷ q ∷ [])))
      ≡ read_match (some (record { negative = neg; units = to_digits a; decimals = p ∷ q ∷ [] }))
parse_digits neg a p q hp hq =
    decimal_string_lem (sign_text neg ++ (to_digits a ++ (b'.' ∷ p ∷ q ∷ [])))
    ∙ ap (λ x. read_match (match_money x))
        (trim_money neg (to_digits a) (b'.' ∷ p ∷ []) q (to_digits-All a) (to_digits-ne-nil a) hq)
    ∙ ap read_match (
        match_money_lem neg (to_digits a) (b'.' ∷ p ∷ q ∷ []) (to_digits-All a) (to_digits-ne-nil a)
          refl
        ∙ match_decimals_two neg (to_digits a) p q hp hq)

parse_printed :
    (neg : Bool) (a : ℕ)
    → a ≤ max_safe
    → decimal_string_to_cents
        (sign_text neg ++ (to_digits (a / 100) ++ (b'.' ∷ pad_start (to_digits (a % 100)))))
      ≡ ok (if neg then neg_ℤ (pos a) else pos a)
parse_printed neg a h = rw (pad_start-to_digits (a % 100) (omega arith)) (
    parse_digits neg (a / 100) _ _ (ground arith) (ground arith)
    ∙ rw (cents_parts a neg) (ground arith))

pub sign_restored : (z : ℤ) → (if ltb_ℤ z (pos 0) then neg_ℤ (pos (abs_ℤ z)) else pos (abs_ℤ z)) ≡ z
sign_restored z = ground arith

-- Printing a safe number of cents gives a text that reads back as the same number.
pub cents_round_trip :
    (z : ℤ)
    → abs_ℤ z ≤ max_safe
    → (s : List ℕ) × (cents_to_decimal_string z ≡ ok s) × (decimal_string_to_cents s ≡ ok z)
unfolding cents_to_decimal_string
cents_round_trip z h = (
  sign_text (ltb_ℤ z (pos 0))
      ++ (to_digits (abs_ℤ z / 100) ++ (b'.' ∷ pad_start (to_digits (abs_ℤ z % 100)))),
  ground arith,
  parse_printed (ltb_ℤ z (pos 0)) (abs_ℤ z) h ∙ ap ok (sign_restored z),
)
