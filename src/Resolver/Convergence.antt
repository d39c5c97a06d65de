-- ===== src/Resolver/Convergence.antt =====
-- What follows from the policy: a resolution brings the sides together, treats them alike, and
-- loses no state.
use qbo_invoice_sync.Common.{
  ℕ, ◌≡◌, ◌≢◌, refl, sym, ap, ◌∙◌, ◌⊎◌, inl, inr, none, some, arith, if◌then◌else◌,
}
use qbo_invoice_sync.Invoice.{Date, ComparableInvoice}
use qbo_invoice_sync.Resolver.{
  ResolutionContext, Decision, one_sided_internal, one_sided_external, lww_internal, lww_external,
  Apply, Resolution, noop, apply, resolve,
}
use qbo_invoice_sync.Resolver.Policy.{
  Newer, Policy, agree, internal_changed, external_changed, internal_newer, external_newer,
  resolve-Policy, resolve_iff,
}

-- The two sides once a resolution has been written.
abbrev pub written_internal : ResolutionContext → Apply → ComparableInvoice
written_internal ctx r = if r.write_internal then r.merged else ctx.internal

abbrev pub written_external : ResolutionContext → Apply → ComparableInvoice
written_external ctx r = if r.write_external then r.merged else ctx.external

apply_inj : {r s : Apply} → apply r ≡ apply s → r ≡ s
apply_inj e = cc

-- Once a resolution is written, both sides are the merged state, which is one of the two sides;
-- whatever the base and the dates are then, resolving again does nothing.
pub resolve_converges :
    (ctx next : ResolutionContext) (r : Apply)
    → resolve ctx ≡ apply r
    → next.internal ≡ written_internal ctx r
    → next.external ≡ written_external ctx r
    → (next.internal ≡ r.merged)
      × (next.external ≡ r.merged)
      × ((r.merged ≡ ctx.internal) ⊎ (r.merged ≡ ctx.external))
      × (resolve next ≡ noop)
resolve_converges ctx next r e i x = go ((resolve_iff ctx (apply r)).0 e)
  where
    both :
        (r.merged ≡ ctx.internal) ⊎ (r.merged ≡ ctx.external)
        → next.internal ≡ r.merged
        → next.external ≡ r.merged
        → (next.internal ≡ r.merged)
          × (next.external ≡ r.merged)
          × ((r.merged ≡ ctx.internal) ⊎ (r.merged ≡ ctx.external))
          × (resolve next ≡ noop)
    both from p q = (p, q, from, (resolve_iff next noop).1 (agree (p ∙ sym q) refl))

    go :
        Policy ctx (apply r)
        → (next.internal ≡ r.merged)
          × (next.external ≡ r.merged)
          × ((r.merged ≡ ctx.internal) ⊎ (r.merged ≡ ctx.external))
          × (resolve next ≡ noop)
    go (agree _ f) = cc
    go (internal_changed _ _ f) = both (inl (cc)) (ground arith) (ground arith)
    go (external_changed _ _ f) = both (inr (cc)) (ground arith) (ground arith)
    go (internal_newer _ _ _ _ f) = both (inl (cc)) (ground arith) (ground arith)
    go (external_newer _ _ _ _ f) = both (inr (cc)) (ground arith) (ground arith)

-- The state that a resolution does not keep.
abbrev pub loser : ResolutionContext → Apply → ComparableInvoice
loser ctx r = if r.write_internal then ctx.internal else ctx.external

-- The state that is written over is the last synchronised one, or it is handed on for the audit
-- log.
pub loser_kept :
    (ctx : ResolutionContext) (r : Apply)
    → resolve ctx ≡ apply r
    → (ctx.base ≡ some (loser ctx r)) ⊎ (r.overwritten ≡ some (loser ctx r))
loser_kept ctx r e = go ((resolve_iff ctx (apply r)).0 e)
  where
    go :
        Policy ctx (apply r)
        → (ctx.base ≡ some (loser ctx r)) ⊎ (r.overwritten ≡ some (loser ctx r))
    go (agree _ f) = cc
    go (internal_changed _ b f) = inl (ground arith)
    go (external_changed _ b f) = inl (ground arith)
    go (internal_newer _ _ _ _ f) = inr (ground arith)
    go (external_newer _ _ _ _ f) = inr (ground arith)

-- The context seen from the other system.
abbrev pub swap_sides : ResolutionContext → ResolutionContext
swap_sides ctx = record {
  base = ctx.base;
  internal = ctx.external;
  external = ctx.internal;
  internal_updated_at = ctx.external_updated_at;
  external_updated_at = ctx.internal_updated_at;
}

abbrev pub swap_decision : Decision → Decision
swap_decision one_sided_internal = one_sided_external
swap_decision one_sided_external = one_sided_internal
swap_decision lww_internal = lww_external
swap_decision lww_external = lww_internal

abbrev pub swap_resolution : Resolution → Resolution
swap_resolution noop = noop
swap_resolution (apply r) = apply (record {
  merged = r.merged;
  write_internal = r.write_external;
  write_external = r.write_internal;
  decision = swap_decision r.decision;
  overwritten = r.overwritten;
})

Newer-one_way : (a b : Date) → Newer a b → ¬ Newer b a
Newer-one_way none b h = λ k. h
Newer-one_way (some t) none h = λ k. h
Newer-one_way (some t) (some u) h = λ k. omega arith

Newer-total : (a b : Date) {t u : ℕ} → a ≡ some t → b ≡ some u → t ≢ u → ¬ Newer a b → Newer b a
Newer-total none b p q ne h = cc
Newer-total (some t) none p q ne h = cc
Newer-total (some t) (some u) p q ne h = ground arith

-- The policy treats the two systems alike, except where the dates tie or one is unreadable: with
-- two different dates, exchanging the sides exchanges the resolution.
pub resolve_mirror :
    (ctx : ResolutionContext) {t u : ℕ}
    → ctx.internal_updated_at ≡ some t
    → ctx.external_updated_at ≡ some u
    → t ≢ u
    → resolve (swap_sides ctx) ≡ swap_resolution (resolve ctx)
resolve_mirror ctx {t} {u} hi hx ne = (resolve_iff (swap_sides ctx) _).1 (go (resolve-Policy ctx))
  where
    go : {r : Resolution} → Policy ctx r → Policy (swap_sides ctx) (swap_resolution r)
    go (agree same e) = agree (sym same) (ap swap_resolution e)
    go (internal_changed d b e) = external_changed (λ p. d (sym p)) b (ap swap_resolution e)
    go (external_changed d b e) = internal_changed (λ p. d (sym p)) b (ap swap_resolution e)
    go (internal_newer d i x n e) =
        external_newer (λ p. d (sym p)) x i (Newer-one_way _ _ n) (ap swap_resolution e)
    go (external_newer d i x n e) =
        internal_newer (λ p. d (sym p)) x i (Newer-total _ _ hi hx ne n) (ap swap_resolution e)
