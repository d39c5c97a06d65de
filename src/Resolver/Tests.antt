-- ===== src/Resolver/Tests.antt =====
-- The resolver on a conflict and on a change of one side, and the theorems there.
use qbo_invoice_sync.Common.{text_eq}
use qbo_invoice_sync.Common.{◌≡◌, ◌↔◌, ◌⊎◌, refl, true, false, some, none, [], arith}
use qbo_invoice_sync.Common.Int.{pos}
use qbo_invoice_sync.Json.{stable_stringify, escape_all, escape}
use qbo_invoice_sync.Decimal.{to_digits}
use qbo_invoice_sync.Invoice.{ComparableInvoice, active, comparable_text}
use qbo_invoice_sync.Resolver.{
  ResolutionContext, lww_external, one_sided_internal, Apply, apply, noop, resolve, same_text,
}
use qbo_invoice_sync.Resolver.Policy.{Policy, resolve_iff}
use qbo_invoice_sync.Resolver.Convergence.{
  loser, swap_sides, swap_resolution, resolve_converges, loser_kept, resolve_mirror,
}

abbrev base : ComparableInvoice
base = record {
  doc_number = "INV-1";
  customer_name = "Acme";
  lifecycle = active;
  currency = "USD";
  notes = none;
  total_cents = pos 1000;
  lines = [];
}

abbrev ours : ComparableInvoice
ours = record base { notes = some "ours" }

abbrev theirs : ComparableInvoice
theirs = record base { notes = some "theirs" }

-- Both sides changed, theirs later.
abbrev conflict : ResolutionContext
conflict = record {
  base = some base;
  internal = ours;
  external = theirs;
  internal_updated_at = some 10;
  external_updated_at = some 20;
}

abbrev theirs_wins : Apply
theirs_wins = record {
  merged = theirs;
  write_internal = true;
  write_external = false;
  decision = lww_external;
  overwritten = some ours;
}

conflict_test : resolve conflict ≡ apply theirs_wins
unfolding resolve same_text text_eq comparable_text stable_stringify escape_all escape to_digits
conflict_test = refl

one_side_test :
    resolve (record conflict { external = base })
    ≡ apply (record {
      merged = ours;
      write_internal = false;
      write_external = true;
      decision = one_sided_internal;
      overwritten = none;
    })
unfolding resolve same_text text_eq comparable_text stable_stringify escape_all escape to_digits
one_side_test = refl

-- A date that cannot be read loses to the external side.
invalid_date_test : resolve (record conflict { external_updated_at = none }) ≡ apply theirs_wins
unfolding resolve same_text text_eq comparable_text stable_stringify escape_all escape to_digits
invalid_date_test = refl

-- The next notification, when both sides hold what was written.
abbrev settled : ResolutionContext
settled = record {
  base = some theirs;
  internal = theirs;
  external = theirs;
  internal_updated_at = some 30;
  external_updated_at = some 20;
}

resolve_iff_example : (resolve conflict ≡ apply theirs_wins) ↔ Policy conflict (apply theirs_wins)
resolve_iff_example = resolve_iff conflict (apply theirs_wins)

resolve_converges_example :
    (settled.internal ≡ theirs)
    × (settled.external ≡ theirs)
    × ((theirs ≡ ours) ⊎ (theirs ≡ theirs))
    × (resolve settled ≡ noop)
resolve_converges_example = resolve_converges conflict settled theirs_wins conflict_test refl refl

loser_kept_example :
    (conflict.base ≡ some (loser conflict theirs_wins))
    ⊎ (theirs_wins.overwritten ≡ some (loser conflict theirs_wins))
loser_kept_example = loser_kept conflict theirs_wins conflict_test

resolve_mirror_example : resolve (swap_sides conflict) ≡ swap_resolution (resolve conflict)
resolve_mirror_example = resolve_mirror conflict refl refl (λ e. omega (arith, e))
