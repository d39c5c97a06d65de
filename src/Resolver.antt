-- ===== src/Resolver.antt =====
-- The conflict policy (src/services/conflictResolver.ts): three-way comparison against the last
-- synchronised snapshot, and last write wins.
pub mod Policy
pub mod Convergence
mod Tests
use qbo_invoice_sync.Common.{
  ℕ, Bool, true, false, not, ◌&&◌, ◌||◌, Option, none, some, List, [], ◌∷◌, ltb, ◌==◌, is_some,
  text_eq, if◌then◌else◌,
}
use qbo_invoice_sync.Invoice.{Date, ComparableInvoice, comparable_text}

-- `stableStringify(a) === stableStringify(b)`
unfoldable pub same_text : ComparableInvoice → ComparableInvoice → Bool
same_text a b = text_eq (comparable_text a) (comparable_text b)

unfoldable pub equals : ComparableInvoice → Option ComparableInvoice → Bool
equals a none = false
equals a (some b) = same_text a b

-- `a.getTime() > b.getTime()`, which is false where one of them is NaN.
abbrev pub is_later : Date → Date → Bool
is_later (some a) (some b) = ltb b a
is_later _ _ = false

pub record ResolutionContext : Type 0 where
  pub base : Option ComparableInvoice
  pub internal : ComparableInvoice
  pub external : ComparableInvoice
  pub internal_updated_at : Date
  pub external_updated_at : Date

pub data Decision : Type 0 where
  one_sided_internal one_sided_external lww_internal lww_external : Decision

pub record Apply : Type 0 where
  pub merged : ComparableInvoice
  pub write_internal : Bool
  pub write_external : Bool
  pub decision : Decision
  pub overwritten : Option ComparableInvoice

pub data Resolution : Type 0 where
  noop : Resolution
  apply : Apply → Resolution

abbrev pub internal_wins : Decision → Bool
internal_wins one_sided_internal = true
internal_wins lww_internal = true
internal_wins _ = false

abbrev pub is_lww : Decision → Bool
is_lww lww_internal = true
is_lww lww_external = true
is_lww _ = false

unfoldable pub decide : ResolutionContext → Decision
unfolding equals
decide ctx =
    let internal_changed = not (equals ctx.internal ctx.base) in
    let external_changed = not (equals ctx.external ctx.base) in
    if is_some ctx.base && (internal_changed && not external_changed)
    then one_sided_internal
    else if is_some ctx.base && (external_changed && not internal_changed)
    then one_sided_external
    else if is_later ctx.internal_updated_at ctx.external_updated_at
    then lww_internal
    else lww_external

unfoldable pub resolve : ResolutionContext → Resolution
unfolding decide
resolve ctx =
    if same_text ctx.internal ctx.external
    then noop
    else let decision = decide ctx in
      apply (record {
        merged = if internal_wins decision then ctx.internal else ctx.external;
        write_internal = not (internal_wins decision);
        write_external = internal_wins decision;
        decision = decision;
        overwritten =
            if is_lww decision
            then some (if internal_wins decision then ctx.external else ctx.internal)
            else none;
      })
