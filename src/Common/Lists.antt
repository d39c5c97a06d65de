-- ===== src/Common/Lists.antt =====
-- Lists measured by native numbers, predicates over lists, and the laws of `∷`.
use Prim.Native.Nat.{ℕ, zero, suc, ◌+◌, ◌≤◌}
use mathlib.Core.Path.{◌≡◌, refl, sym, ap, subst}
use mathlib.Core.Bool.{Bool, true, false}
use mathlib.Core.List.{List, [], ◌∷◌, ◌++◌, map}
use mathlib.Core.Option.{Option, none, some}
use native.Mathlib.Omega.{arith}

module _ {ℓ} {A : Type ℓ} where
  abbrev pub length : List A → ℕ
  length [] = 0
  length (x ∷ xs) = suc (length xs)

  -- The first element that passes the test.
  abbrev pub find : (A → Bool) → List A → Option A
  find p [] = none
  find p (x ∷ xs) = elim (p x) [ true ↦ some x | false ↦ find p xs ]

  -- `xs.slice(0, n)`
  abbrev pub take : ℕ → List A → List A
  take zero xs = []
  take (suc n) [] = []
  take (suc n) (x ∷ xs) = x ∷ take n xs

  pub length-append : (xs ys : List A) → length (xs ++ ys) ≡ length xs + length ys
  length-append [] ys = omega arith
  length-append (x ∷ xs) ys = omega (arith, length-append xs ys)

  pub head-eq : {x y : A} {xs ys : List A} → (x ∷ xs) ≡ (y ∷ ys) → x ≡ y
  head-eq e = cc

  pub tail-eq : {x y : A} {xs ys : List A} → (x ∷ xs) ≡ (y ∷ ys) → xs ≡ ys
  tail-eq e = cc

  pub append_cancel : (p : List A) {r s : List A} → p ++ r ≡ p ++ s → r ≡ s
  append_cancel [] e = e
  append_cancel (x ∷ p) e = append_cancel p (tail-eq e)

module _ {ℓ} {A : Type ℓ} where
  pub length-take-le : (n : ℕ) (xs : List A) → length (take n xs) ≤ n
  length-take-le zero xs = omega arith
  length-take-le (suc n) [] = omega arith
  length-take-le (suc n) (x ∷ xs) = omega (arith, length-take-le n xs)

module _ {ℓ κ} {A : Type ℓ} (P : A → Type κ) where
  abbrev pub All : List A → Type κ
  All [] = Unit
  All (x ∷ xs) = P x × All xs

  pub All-take : (n : ℕ) (xs : List A) → All xs → All (take n xs)
  All-take zero xs h = tt
  All-take (suc n) [] h = tt
  All-take (suc n) (x ∷ xs) h = (h.0, All-take n xs h.1)

  pub All-append : (xs ys : List A) → All xs → All ys → All (xs ++ ys)
  All-append [] ys hx hy = hy
  All-append (x ∷ xs) ys hx hy = (hx.0, All-append xs ys hx.1 hy)

module _ {ℓ κ ι} {A : Type ℓ} {P : A → Type κ} {Q : A → Type ι} where
  pub All-map : ((a : A) → P a → Q a) → (xs : List A) → All P xs → All Q xs
  All-map f [] h = tt
  All-map f (x ∷ xs) h = (f x h.0, All-map f xs h.1)

-- `a` is one of the elements.
pub data In {ℓ} {A : Type ℓ} (a : A) : List A → Type ℓ where
  here : {b : A} {xs : List A} → a ≡ b → In a (b ∷ xs)
  there : {b : A} {xs : List A} → In a xs → In a (b ∷ xs)

module _ {ℓ} {A : Type ℓ} where
  pub All-In {κ} : (P : A → Type κ) (a : A) (xs : List A) → All P xs → In a xs → P a
  All-In P a [] h m = elim m [ ]
  All-In P a (x ∷ xs) h (here e) = subst P (sym e) h.0
  All-In P a (x ∷ xs) h (there m) = All-In P a xs h.1 m

  pub In-append : {a : A} (xs ys : List A) → In a xs → In a (xs ++ ys)
  In-append [] ys m = elim m [ ]
  In-append (x ∷ xs) ys (here e) = here e
  In-append (x ∷ xs) ys (there m) = there (In-append xs ys m)

  pub In-concat : (xs : List A) (a : A) → In a (xs ++ (a ∷ []))
  In-concat [] a = here refl
  In-concat (x ∷ xs) a = there (In-concat xs a)

  pub In-map {κ} : {B : Type κ} (f : A → B) {a : A} (xs : List A) → In a xs → In (f a) (map f xs)
  In-map f [] m = elim m [ ]
  In-map f (x ∷ xs) (here e) = here (ap f e)
  In-map f (x ∷ xs) (there m) = there (In-map f xs m)

  pub In-of_map {κ} :
      {B : Type κ} (f : A → B) {b : B} (xs : List A)
      → In b (map f xs)
      → (a : A) × In a xs × (f a ≡ b)
  In-of_map f [] m = elim m [ ]
  In-of_map f (x ∷ xs) (here e) = (x, here refl, sym e)
  In-of_map f (x ∷ xs) (there m) = let (a, k, e) = In-of_map f xs m in (a, there k, e)

-- The elements of two lists are related one by one.
pub data Pairwise {ℓ κ ι} {A : Type ℓ} {B : Type κ} (R : A → B → Type ι)
    : List A → List B → Type (ℓ ⊔ κ ⊔ ι) where
  both_empty : Pairwise R [] []
  pair :
      {a : A} {b : B} {xs : List A} {ys : List B}
      → R a b
      → Pairwise R xs ys
      → Pairwise R (a ∷ xs) (b ∷ ys)

pub Pairwise-trans {ℓ κ ι ℓ₁ ℓ₂ ℓ₃} :
    {A : Type ℓ} {B : Type κ} {C : Type ι} {R : A → B → Type ℓ₁} {S : B → C → Type ℓ₂}
    {T : A → C → Type ℓ₃}
    → ((a : A) (b : B) (c : C) → R a b → S b c → T a c)
    → {xs : List A} {ys : List B} {zs : List C} → Pairwise R xs ys
    → Pairwise S ys zs
    → Pairwise T xs zs
Pairwise-trans f both_empty both_empty = both_empty
Pairwise-trans f (pair {a} {b} r rs) (pair {b = c} s ss) =
    pair (f a b c r s) (Pairwise-trans f rs ss)
