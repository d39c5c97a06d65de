-- ===== src/Controllers/Webhooks/Keys.antt =====
-- The dedupe keys of src/controllers/webhookController.ts: two internal notifications have one key
-- only if they tell of the same change.
use mathlib.Core.Bool.{false≢true}
use text.Mathlib.TextLemmas.{nil-append, cons-append}
use Prim.Native.Char.{code}
use Prim.Native.String.{◌++◌ as text_append}
use qbo_invoice_sync.Common.{
  ℕ, zero, suc, ◌+◌, ◌-◌, ◌<◌, ◌≡◌, ◌≢◌, ◌↔◌, refl, sym, ap, ap₂, ◌∙◌, List, [], ◌∷◌, ◌++◌,
  append_assoc, append-nil, append_cancel, head-eq, tail-eq, codes, codes_inj, String, subst, some,
  Bool, false, ◌||◌, ◌==◌, ==_iff, All, All-map, arith,
}
use qbo_invoice_sync.Common.Int.{ℤ, pos, negsuc}
use qbo_invoice_sync.Decimal.{to_digits}
use qbo_invoice_sync.Decimal.Reading.{IsDigit, to_digits-All}
use qbo_invoice_sync.Json.{number_text}
use qbo_invoice_sync.Json.Quoting.{number_text_peel}
use qbo_invoice_sync.Texts.{nth_char, digits_text, print}
use qbo_invoice_sync.Webhooks.{EntityType, invoice, payment, entity_text}
use qbo_invoice_sync.Controllers.Webhooks.{
  ChangeOperation, create, update, void, delete, operation_of, operation_text, InternalChangeEvent,
  internal_key,
}

codes-text_append : (s t : String) → codes (text_append s t) ≡ codes s ++ codes t
codes-text_append String.[] t = ap codes (nil-append t)
codes-text_append (String.◌∷◌ c s) t =
    ap codes (cons-append c s t) ∙ ap (λ x. code c ∷ x) (codes-text_append s t)

nth_digit : (d : ℕ) → d < 10 → code (nth_char "0" d "0123456789") ≡ b'0' + d
nth_digit zero h = refl
nth_digit (suc zero) h = refl
nth_digit (suc (suc zero)) h = refl
nth_digit (suc (suc (suc zero))) h = refl
nth_digit (suc (suc (suc (suc zero)))) h = refl
nth_digit (suc (suc (suc (suc (suc zero))))) h = refl
nth_digit (suc (suc (suc (suc (suc (suc zero)))))) h = refl
nth_digit (suc (suc (suc (suc (suc (suc (suc zero))))))) h = refl
nth_digit (suc (suc (suc (suc (suc (suc (suc (suc zero)))))))) h = refl
nth_digit (suc (suc (suc (suc (suc (suc (suc (suc (suc zero))))))))) h = refl
nth_digit (suc (suc (suc (suc (suc (suc (suc (suc (suc (suc d)))))))))) h = absurd (omega arith)

codes-digits_text : (ds : List ℕ) → All IsDigit ds → codes (digits_text ds) ≡ ds
codes-digits_text [] h = refl
codes-digits_text (c ∷ cs) h =
    ap₂ ◌∷◌ (nth_digit (c - b'0') (ground arith) ∙ ground arith) (codes-digits_text cs h.1)

codes-print : (z : ℤ) → codes (print z) ≡ number_text z
unfolding print number_text
codes-print (pos n) = codes-digits_text (to_digits n) (to_digits-All n)
codes-print (negsuc n) =
    codes-text_append "-" (digits_text (to_digits (suc n)))
    ∙ ap (λ x. b'-' ∷ x) (codes-digits_text (to_digits (suc n)) (to_digits-All (suc n)))

abbrev NoColon : List ℕ → Type 0
NoColon s = All (λ c. c ≢ b':') s

digit-no-colon : (c : ℕ) → IsDigit c → c ≢ b':'
digit-no-colon c h e = absurd (let digit = rw e at h in false≢true digit)

abbrev has_colon : List ℕ → Bool
has_colon [] = false
has_colon (c ∷ s) = c == b':' || has_colon s

has_colon-NoColon : (s : List ℕ) → has_colon s ≡ false → NoColon s
has_colon-NoColon [] h = tt
has_colon-NoColon (c ∷ s) h = (
  λ e. let same = (==_iff c b':').1 e in absurd (ground arith),
  has_colon-NoColon s (ground arith),
)

number_text-NoColon : (z : ℤ) → NoColon (number_text z)
unfolding number_text
number_text-NoColon (pos n) = All-map digit-no-colon (to_digits n) (to_digits-All n)
number_text-NoColon (negsuc n) =
    (omega arith, All-map digit-no-colon (to_digits (suc n)) (to_digits-All (suc n)))

operation-NoColon : (op : ChangeOperation) → NoColon (codes (operation_text op))
operation-NoColon create = has_colon-NoColon (codes "create") refl
operation-NoColon update = has_colon-NoColon (codes "update") refl
operation-NoColon void = has_colon-NoColon (codes "void") refl
operation-NoColon delete = has_colon-NoColon (codes "delete") refl

colon_inside : (xs a : List ℕ) → NoColon (xs ++ (b':' ∷ a)) → ⊥
colon_inside [] a h = h.0 refl
colon_inside (x ∷ xs) a h = colon_inside xs a h.1

-- What stands behind the last colon, and what before it.
last_colon :
    (xs ys a b : List ℕ)
    → NoColon a
    → NoColon b
    → xs ++ (b':' ∷ a) ≡ ys ++ (b':' ∷ b)
    → (xs ≡ ys) × (a ≡ b)
last_colon [] [] a b ha hb e = (refl, tail-eq e)
last_colon [] (y ∷ ys) a b ha hb e = absurd (colon_inside ys b (subst NoColon (tail-eq e) ha))
last_colon (x ∷ xs) [] a b ha hb e = absurd (colon_inside xs a (subst NoColon (sym (tail-eq e)) hb))
last_colon (x ∷ xs) (y ∷ ys) a b ha hb e =
    let (before, after) = last_colon xs ys a b ha hb (tail-eq e) in
    (ap₂ ◌∷◌ (head-eq e) before, after)

-- The key without its prefix, parted at its last colons.
abbrev parts : InternalChangeEvent → List ℕ
parts e =
    ((codes (entity_text e.entity_type) ++ (b':' ∷ codes e.entity_id))
      ++ (b':' ∷ codes (operation_text e.operation)))
    ++ (b':' ∷ number_text e.version)

codes-internal_key :
    (e : InternalChangeEvent) → codes (internal_key e) ≡ codes "internal:" ++ parts e
unfolding internal_key
codes-internal_key e = simp (codes-text_append, codes-print, append_assoc)

entity_colon :
    (t u : EntityType) (a b : List ℕ)
    → codes (entity_text t) ++ (b':' ∷ a) ≡ codes (entity_text u) ++ (b':' ∷ b)
    → (t ≡ u) × (a ≡ b)
entity_colon invoice invoice a b e = (refl, append_cancel (codes "invoice:") e)
entity_colon invoice payment a b e = absurd (let h : 105 ≡ 112 = head-eq e in omega arith)
entity_colon payment invoice a b e = absurd (let h : 112 ≡ 105 = head-eq e in omega arith)
entity_colon payment payment a b e = (refl, append_cancel (codes "payment:") e)

operation_of_text : (a : ChangeOperation) → operation_of (operation_text a) ≡ some a
operation_of_text create = refl
operation_of_text update = refl
operation_of_text void = refl
operation_of_text delete = refl

operation_text_inj : (a b : ChangeOperation) → operation_text a ≡ operation_text b → a ≡ b
operation_text_inj a b e =
    let same : some a ≡ some b =
      sym (operation_of_text a) ∙ ap operation_of e ∙ operation_of_text b in
    cc

-- The same change of the same entity, at the same version.
pub record SameChange (e f : InternalChangeEvent) : Type 0 where
  pub entity_type : e.entity_type ≡ f.entity_type
  pub entity_id : e.entity_id ≡ f.entity_id
  pub operation : e.operation ≡ f.operation
  pub version : e.version ≡ f.version

-- Two internal notifications have one key exactly when they tell of the same change, whatever
-- characters are in the ids.
pub internal_key-eq_iff :
    (e f : InternalChangeEvent) → (internal_key e ≡ internal_key f) ↔ SameChange e f
internal_key-eq_iff e f = (
  λ same.
      let all =
        append_cancel (codes "internal:")
          (sym (codes-internal_key e) ∙ ap codes same ∙ codes-internal_key f) in
      let (front, versions) =
        last_colon _ _ _ _ (number_text-NoColon e.version) (number_text-NoColon f.version) all in
      let (entity, operations) =
        last_colon _ _ _ _ (operation-NoColon e.operation) (operation-NoColon f.operation) front in
      let (types, ids) =
        entity_colon e.entity_type f.entity_type (codes e.entity_id) (codes f.entity_id) entity in
      record {
        entity_type = types;
        entity_id = codes_inj _ _ ids;
        operation = operation_text_inj _ _ (codes_inj _ _ operations);
        version =
            (number_text_peel e.version f.version [] [] tt tt
              (append-nil _ ∙ versions ∙ sym (append-nil _))).0;
      },
  λ c. codes_inj _ _ (
      codes-internal_key e
      ∙ ap (λ x. codes "internal:" ++ x)
          (rw (c.entity_type, c.entity_id, c.operation, c.version) refl)
      ∙ sym (codes-internal_key f)),
)
