-- ===== src/Resolver/Policy.antt =====
-- The documented policy as a relation, and the resolver against it.
mod Texts
use qbo_invoice_sync.Resolver.Policy.Texts.{same_text_iff, equals_iff}
use mathlib.Core.Bool.{false≢true}
use qbo_invoice_sync.Common.{
  ℕ, ◌<◌, ◌≡◌, ◌≢◌, ◌↔◌, refl, sym, ap, subst, ◌∙◌, ◌⊎◌, inl, inr, Bool, true, false, not, ◌&&◌,
  Option, none, some, arith, ltb, is_some, Bool-cases, if◌then◌else◌,
}
use qbo_invoice_sync.Invoice.{Date, ComparableInvoice}
use qbo_invoice_sync.Resolver.{
  same_text, equals, is_later, ResolutionContext, Decision, one_sided_internal, one_sided_external,
  lww_internal, lww_external, Apply, Resolution, noop, apply, decide, resolve,
}

-- The first of two valid dates is strictly the later.
abbrev pub Newer : Date → Date → Type 0
Newer (some a) (some b) = b < a
Newer _ _ = ⊥

-- One side is kept and written over the other.
abbrev pub keep_internal : ResolutionContext → Decision → Option ComparableInvoice → Resolution
keep_internal ctx decision overwritten = apply (record {
  merged = ctx.internal;
  write_internal = false;
  write_external = true;
  decision = decision;
  overwritten = overwritten;
})

abbrev pub keep_external : ResolutionContext → Decision → Option ComparableInvoice → Resolution
keep_external ctx decision overwritten = apply (record {
  merged = ctx.external;
  write_internal = true;
  write_external = false;
  decision = decision;
  overwritten = overwritten;
})

-- The policy of the file's header comment and of README.md: equal sides need nothing; a side that
-- alone changed since the last synchronisation is propagated; otherwise the later write wins, a
-- tie or an unreadable date going to the external side, and the losing state is handed on.
pub data Policy (ctx : ResolutionContext) (r : Resolution) : Type 0 where
  agree : ctx.internal ≡ ctx.external → r ≡ noop → Policy ctx r
  internal_changed :
      ctx.internal ≢ ctx.external
      → ctx.base ≡ some ctx.external
      → r ≡ keep_internal ctx one_sided_internal none
      → Policy ctx r
  external_changed :
      ctx.internal ≢ ctx.external
      → ctx.base ≡ some ctx.internal
      → r ≡ keep_external ctx one_sided_external none
      → Policy ctx r
  internal_newer :
      ctx.internal ≢ ctx.external
      → ctx.base ≢ some ctx.internal
      → ctx.base ≢ some ctx.external
      → Newer ctx.internal_updated_at ctx.external_updated_at
      → r ≡ keep_internal ctx lww_internal (some ctx.external)
      → Policy ctx r
  external_newer :
      ctx.internal ≢ ctx.external
      → ctx.base ≢ some ctx.internal
      → ctx.base ≢ some ctx.external
      → ¬ Newer ctx.internal_updated_at ctx.external_updated_at
      → r ≡ keep_external ctx lww_external (some ctx.internal)
      → Policy ctx r

is_later_iff : (a b : Date) → (is_later a b ≡ true) ↔ Newer a b
is_later_iff none b = ground arith
is_later_iff (some a) none = ground arith
is_later_iff (some a) (some b) = ground arith

module _ (ctx : ResolutionContext) where
  differ→ne : same_text ctx.internal ctx.external ≡ false → ctx.internal ≢ ctx.external
  differ→ne h e = let t = (same_text_iff ctx.internal ctx.external).1 e in cc

  unequal→ne : (a : ComparableInvoice) → equals a ctx.base ≡ false → ctx.base ≢ some a
  unequal→ne a h e = let t = (equals_iff a ctx.base).1 e in cc

  -- The base is at most one of two sides that differ.
  equals-one :
      (a b : ComparableInvoice) → a ≢ b → equals a ctx.base ≡ true → equals b ctx.base ≡ false
  equals-one a b ne h = elim (Bool-cases (equals b ctx.base)) [
    | inl both ↦
        let p = (equals_iff a ctx.base).0 h in
        let q = (equals_iff b ctx.base).0 both in absurd (ne (cc))
    | inr other ↦ other
  ]

  base_known : (a : ComparableInvoice) → equals a ctx.base ≡ true → is_some ctx.base ≡ true
  base_known a h = ap is_some ((equals_iff a ctx.base).0 h)

  resolve-internal_changed :
      same_text ctx.internal ctx.external ≡ false
      → equals ctx.internal ctx.base ≡ false
      → equals ctx.external ctx.base ≡ true
      → resolve ctx ≡ keep_internal ctx one_sided_internal none
  unfolding resolve
  resolve-internal_changed d i e = let k = base_known ctx.external e in rw (d, i, e, k)

  resolve-external_changed :
      same_text ctx.internal ctx.external ≡ false
      → equals ctx.internal ctx.base ≡ true
      → equals ctx.external ctx.base ≡ false
      → resolve ctx ≡ keep_external ctx one_sided_external none
  unfolding resolve
  resolve-external_changed d i e = let k = base_known ctx.internal i in rw (d, i, e, k)

  resolve-conflict :
      (later : Bool)
      → same_text ctx.internal ctx.external ≡ false
      → equals ctx.internal ctx.base ≡ false
      → equals ctx.external ctx.base ≡ false
      → is_later ctx.internal_updated_at ctx.external_updated_at ≡ later
      → resolve ctx ≡ (
          if later
          then keep_internal ctx lww_internal (some ctx.external)
          else keep_external ctx lww_external (some ctx.internal))
  unfolding resolve
  resolve-conflict later d i e l = ground arith

  resolve-conflict-Policy :
      same_text ctx.internal ctx.external ≡ false
      → equals ctx.internal ctx.base ≡ false
      → equals ctx.external ctx.base ≡ false
      → Policy ctx (resolve ctx)
  resolve-conflict-Policy d i e =
      let ne = differ→ne d in
      let dates = is_later_iff ctx.internal_updated_at ctx.external_updated_at in
      elim (Bool-cases (is_later ctx.internal_updated_at ctx.external_updated_at)) [
        | inl later ↦
            internal_newer ne (unequal→ne ctx.internal i) (unequal→ne ctx.external e)
              (dates.0 later) (resolve-conflict true d i e later)
        | inr tie ↦
            external_newer ne (unequal→ne ctx.internal i) (unequal→ne ctx.external e)
              (λ n. false≢true (sym tie ∙ dates.1 n)) (resolve-conflict false d i e tie)
      ]

  resolve-differ-Policy : same_text ctx.internal ctx.external ≡ false → Policy ctx (resolve ctx)
  resolve-differ-Policy d =
      let ne = differ→ne d in
      elim (Bool-cases (equals ctx.external ctx.base)) [
        | inl e ↦ internal_changed ne ((equals_iff ctx.external ctx.base).0 e) (
            resolve-internal_changed d (equals-one ctx.external ctx.internal (λ p. ne (sym p)) e) e)
        | inr e ↦ elim (Bool-cases (equals ctx.internal ctx.base)) [
          | inl i ↦
              external_changed ne ((equals_iff ctx.internal ctx.base).0 i)
                (resolve-external_changed d i e)
          | inr i ↦ resolve-conflict-Policy d i e
        ]
      ]

  ne→differ : ctx.internal ≢ ctx.external → same_text ctx.internal ctx.external ≡ false
  ne→differ ne = elim (Bool-cases (same_text ctx.internal ctx.external)) [
    | inl same ↦ absurd (ne ((same_text_iff ctx.internal ctx.external).0 same))
    | inr differ ↦ differ
  ]

  ne→unequal : (a : ComparableInvoice) → ctx.base ≢ some a → equals a ctx.base ≡ false
  ne→unequal a ne = elim (Bool-cases (equals a ctx.base)) [
    | inl same ↦ absurd (ne ((equals_iff a ctx.base).0 same))
    | inr differ ↦ differ
  ]

  not_newer→not_later :
      ¬ Newer ctx.internal_updated_at ctx.external_updated_at
      → is_later ctx.internal_updated_at ctx.external_updated_at ≡ false
  not_newer→not_later n =
      elim (Bool-cases (is_later ctx.internal_updated_at ctx.external_updated_at)) [
        | inl later ↦
            absurd (n ((is_later_iff ctx.internal_updated_at ctx.external_updated_at).0 later))
        | inr tie ↦ tie
      ]

  resolve_unique : {r : Resolution} → Policy ctx r → resolve ctx ≡ r
  resolve_unique (agree same e) =
      let t = (same_text_iff ctx.internal ctx.external).1 same in unfold resolve in rw (t, e)
  resolve_unique (internal_changed ne b e) =
      let x = (equals_iff ctx.external ctx.base).1 b in
      resolve-internal_changed (ne→differ ne)
        (equals-one ctx.external ctx.internal (λ p. ne (sym p)) x) x
      ∙ sym e
  resolve_unique (external_changed ne b e) =
      let i = (equals_iff ctx.internal ctx.base).1 b in
      resolve-external_changed (ne→differ ne) i (equals-one ctx.internal ctx.external ne i) ∙ sym e
  resolve_unique (internal_newer ne i x n e) =
      resolve-conflict true (ne→differ ne) (ne→unequal ctx.internal i) (ne→unequal ctx.external x)
        ((is_later_iff ctx.internal_updated_at ctx.external_updated_at).1 n)
      ∙ sym e
  resolve_unique (external_newer ne i x n e) =
      resolve-conflict false (ne→differ ne) (ne→unequal ctx.internal i) (ne→unequal ctx.external x)
        (not_newer→not_later n)
      ∙ sym e

-- Every resolution is one that the policy allows.
pub resolve-Policy : (ctx : ResolutionContext) → Policy ctx (resolve ctx)
resolve-Policy ctx = elim (Bool-cases (same_text ctx.internal ctx.external)) [
  | inl same ↦ agree ((same_text_iff ctx.internal ctx.external).0 same) (unfold resolve in rw same)
  | inr differ ↦ resolve-differ-Policy ctx differ
]

-- The resolver returns exactly what the documented policy allows, in every context.
pub resolve_iff : (ctx : ResolutionContext) (r : Resolution) → (resolve ctx ≡ r) ↔ Policy ctx r
resolve_iff ctx r = (λ e. subst (Policy ctx) e (resolve-Policy ctx), λ p. resolve_unique ctx p)
