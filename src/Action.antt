-- ===== src/Action.antt =====
-- Asynchronous code that reads and writes a state and may throw: what was written before an
-- exception stays written, unless a transaction rolls it back.
use qbo_invoice_sync.Common.{
  Pairwise, both_empty, pair, ◌≡◌, refl, ◌∙◌, ap, subst, Bool, Option, none, some, List, [], ◌∷◌,
  if◌then◌else◌,
}
use qbo_invoice_sync.Errors.{SyncError, Result, ok, err}

abbrev pub Action : Type 0 → Type 0 → Type 0
Action S A = S → Result A × S

module _ {S A : Type 0} where
  abbrev pub pure : A → Action S A
  pure a s = (ok a, s)

  abbrev pub raise : SyncError → Action S A
  raise e s = (err e, s)

  abbrev pub gets : (S → A) → Action S A
  gets f s = (ok (f s), s)

  -- A value that the code insists on.
  abbrev pub or_raise : SyncError → Option A → Action S A
  or_raise e none = raise e
  or_raise e (some a) = pure a

abbrev pub modify : {S : Type 0} → (S → S) → Action S Unit
modify f s = (ok tt, f s)

abbrev pub guard : {S : Type 0} → Bool → SyncError → Action S Unit
guard c e s = (if c then ok tt else err e, s)

-- What follows an action that ended with a result and a state.
abbrev pub continue : {S A B : Type 0} → (A → Action S B) → Result A × S → Result B × S
continue f (ok a, s) = f a s
continue f (err e, s) = (err e, s)

infixl 5 ◌>>=◌ ◌>>◌
unfoldable pub ◌>>=◌ : {S A B : Type 0} → Action S A → (A → Action S B) → Action S B
◌>>=◌ m f s = continue f (m s)

abbrev pub ◌>>◌ : {S A B : Type 0} → Action S A → Action S B → Action S B
m >> k = m >>= λ _. k

-- An action that succeeded has succeeded in each of its parts.
continue-ok :
    {S A B : Type 0} (f : A → Action S B) (r : Result A × S) {b : B} {u : S}
    → continue f r ≡ (ok b, u)
    → (a : A) × (t : S) × (r ≡ (ok a, t)) × (f a t ≡ (ok b, u))
continue-ok f (ok a, t) e = (a, t, refl, e)
continue-ok f (err x, t) e = cc

pub >>=-ok :
    {S A B : Type 0} (m : Action S A) (f : A → Action S B) (s : S) {b : B} {u : S}
    → (m >>= f) s ≡ (ok b, u)
    → (a : A) × (t : S) × (m s ≡ (ok a, t)) × (f a t ≡ (ok b, u))
unfolding ◌>>=◌
>>=-ok m f s e = continue-ok f (m s) e

-- The action leaves a part of the state as it is.
abbrev pub Keeps : {S A X : Type 0} → (S → X) → Action S A → Type 0
Keeps g m = (s : _) → g (m s).1 ≡ g s

continue-Keeps :
    {S A B X : Type 0} (g : S → X) (f : A → Action S B)
    → ((a : A) → Keeps g (f a))
    → (r : Result A × S) → g (continue f r).1 ≡ g r.1
continue-Keeps g f k (ok a, t) = k a t
continue-Keeps g f k (err x, t) = refl

pub >>=-Keeps :
    {S A B X : Type 0} (g : S → X) (m : Action S A) (f : A → Action S B)
    → Keeps g m
    → ((a : A) → Keeps g (f a))
    → Keeps g (m >>= f)
unfolding ◌>>=◌
>>=-Keeps g m f h k s = continue-Keeps g f k (m s) ∙ h s

pub or_raise-ok :
    {S A : Type 0} (x : SyncError) (o : Option A) (s : S) {a : A} {t : S}
    → or_raise x o s ≡ (ok a, t)
    → (o ≡ some a) × (s ≡ t)
or_raise-ok x none s e = cc
or_raise-ok x (some b) s e = (cc, cc)

pub pure-ok :
    {S A : Type 0} (b : A) (s : S) {a : A} {t : S} → pure b s ≡ (ok a, t) → (b ≡ a) × (s ≡ t)
pure-ok b s e = (cc, cc)

-- What holds of a sequence, by what became of its first part.
pub >>=-cases :
    {S A B : Type 0} (Q : Result B → Type 0) (m : Action S A) (f : A → Action S B) (s : S)
    → ((e : SyncError) → (m s).0 ≡ err e → Q (err e))
    → ((a : A) (t : S) → m s ≡ (ok a, t) → Q (f a t).0)
    → Q ((m >>= f) s).0
unfolding ◌>>=◌
>>=-cases {S = S} {A = A} Q m f s fails next = go (m s) refl
  where
    go : (r : Result A × S) → m s ≡ r → Q (continue f r).0
    go (ok a, t) h = next a t h
    go (err e, t) h = fails e (ap (λ r. r.0) h)

-- Code that may throw and has no other effect.
abbrev pub lift : {S A : Type 0} → Result A → Action S A
lift r s = (r, s)

abbrev pub prepend : {S A : Type 0} → A → Action S (List A) → Action S (List A)
prepend a rest = do more ← rest; pure (a ∷ more)

-- A loop over a list that collects what its body makes of each element.
unfoldable pub traverse : {S A B : Type 0} → (A → Action S B) → List A → Action S (List B)
traverse f [] = pure []
traverse f (a ∷ rest) = do b ← f a; prepend b (traverse f rest)

prepend-ok :
    {S A B : Type 0} (f : A → Action S B) (b : B) (rest : Action S (List B)) (s : S) {bs : List B}
    {t : S}
    → prepend b rest s ≡ (ok bs, t)
    → (more : List B) × (rest s ≡ (ok more, t)) × ((b ∷ more) ≡ bs)
unfolding ◌>>=◌
prepend-ok f b rest s e =
    let (more, u, p, q) = >>=-ok rest (λ m. pure (b ∷ m)) s e in
    let (same, end) = pure-ok (b ∷ more) u q in (more, p ∙ ap (λ x. (ok more, x)) end, same)

-- What a loop that succeeded collected is related to its list as each round relates them.
pub traverse-ok :
    {S A B : Type 0} (R : A → B → Type 0) (f : A → Action S B)
    → ((a : A) (s t : S) (b : B) → f a s ≡ (ok b, t) → R a b)
    → (xs : List A) (s t : S) (bs : List B) → traverse f xs s ≡ (ok bs, t)
    → Pairwise R xs bs
unfolding traverse
traverse-ok R f each [] s t bs e =
    let (same, end) = pure-ok [] s e in subst (Pairwise R []) same both_empty
traverse-ok R f each (a ∷ xs) s t bs e =
    let (b, u, p, q) = >>=-ok (f a) (λ b. prepend b (traverse f xs)) s e in
    let (more, r, same) = prepend-ok f b (traverse f xs) u q in
    subst (Pairwise R (a ∷ xs)) same (pair (each a s u b p) (traverse-ok R f each xs u t more r))
