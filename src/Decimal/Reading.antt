-- ===== src/Decimal/Reading.antt =====
-- Reading a numeral back: the digits printed for a number are digits, their value is the number,
-- and they end where the next character is no digit.
use qbo_invoice_sync.Common.{
  ℕ, zero, suc, ◌+◌, ◌/◌, ◌%◌, ◌<◌, ◌≡◌, ◌≢◌, refl, ap, ◌∙◌, sym, true, false, List, [], ◌∷◌, ◌++◌,
  arith, ltb, All, Bool-cases, inl, inr,
}
use qbo_invoice_sync.Decimal.{is_digit, digits_loop, to_digits, digits_value, digit_run, after_run}

abbrev pub IsDigit : ℕ → Type 0
IsDigit c = is_digit c ≡ true

-- What follows a numeral must not prolong it.
abbrev pub Stops : List ℕ → Type 0
Stops [] = Unit
Stops (c ∷ r) = is_digit c ≡ false

digits_loop-All : (f n : ℕ) (acc : List ℕ) → All IsDigit acc → All IsDigit (digits_loop f n acc)
unfolding digits_loop
digits_loop-All zero n acc h = h
digits_loop-All (suc f) n acc h = elim (Bool-cases (ltb n 10)) [
  | inl small ↦ rw small (ground arith, h)
  | inr large ↦ rw large (digits_loop-All f (n / 10) _ (ground arith, h))
]

pub to_digits-All : (n : ℕ) → All IsDigit (to_digits n)
unfolding to_digits
to_digits-All n = digits_loop-All (suc n) n [] tt

digits_value-digits_loop :
    (f n : ℕ) (acc : List ℕ) → n < f → digits_value 0 (digits_loop f n acc) ≡ digits_value n acc
unfolding digits_loop
digits_value-digits_loop zero n acc h = elim h [ ]
digits_value-digits_loop (suc f) n acc h = elim (Bool-cases (ltb n 10)) [
  | inl small ↦ rw small (ap (λ v. digits_value v acc) (omega arith))
  | inr large ↦ rw large (
      digits_value-digits_loop f (n / 10) ((b'0' + n % 10) ∷ acc) (ground arith)
      ∙ ap (λ v. digits_value v acc) (omega arith))
]

-- Reading what was printed gives the number back.
pub digits_value-to_digits : (n : ℕ) → digits_value 0 (to_digits n) ≡ n
unfolding to_digits
digits_value-to_digits n = digits_value-digits_loop (suc n) n [] (omega arith)

pub digit_run-append : (ds r : List ℕ) → All IsDigit ds → Stops r → digit_run (ds ++ r) ≡ ds
digit_run-append [] [] h s = refl
digit_run-append [] (c ∷ r) h s = rw s
digit_run-append (d ∷ ds) r h s = rw h.0 (ap (λ t. d ∷ t) (digit_run-append ds r h.1 s))

pub after_run-append : (ds r : List ℕ) → All IsDigit ds → Stops r → after_run (ds ++ r) ≡ r
after_run-append [] [] h s = refl
after_run-append [] (c ∷ r) h s = rw s
after_run-append (d ∷ ds) r h s = rw h.0 (after_run-append ds r h.1 s)

-- Two numerals that are followed by other characters agree only if the numbers and the rests do.
pub to_digits_peel :
    (m n : ℕ) (r s : List ℕ)
    → Stops r
    → Stops s
    → to_digits m ++ r ≡ to_digits n ++ s
    → (m ≡ n) × (r ≡ s)
to_digits_peel m n r s hr hs e = (
  sym (digits_value-to_digits m)
      ∙ ap (digits_value 0) (
          sym (digit_run-append (to_digits m) r (to_digits-All m) hr)
          ∙ ap digit_run e
          ∙ digit_run-append (to_digits n) s (to_digits-All n) hs)
      ∙ digits_value-to_digits n,
  sym (after_run-append (to_digits m) r (to_digits-All m) hr)
      ∙ ap after_run e
      ∙ after_run-append (to_digits n) s (to_digits-All n) hs,
)

digits_loop-ne-nil : (f n : ℕ) (acc : List ℕ) → acc ≢ [] → digits_loop f n acc ≢ []
unfolding digits_loop
digits_loop-ne-nil zero n acc h = h
digits_loop-ne-nil (suc f) n acc h = elim (Bool-cases (ltb n 10)) [
  | inl small ↦ rw small (cc)
  | inr large ↦ rw large (digits_loop-ne-nil f (n / 10) _ (cc))
]

-- Every number has a digit.
pub to_digits-ne-nil : (n : ℕ) → to_digits n ≢ []
unfolding to_digits digits_loop
to_digits-ne-nil n = elim (Bool-cases (ltb n 10)) [
  | inl small ↦ rw small (cc)
  | inr large ↦ rw large (digits_loop-ne-nil n (n / 10) _ (cc))
]
