-- ===== src/Resolver/Policy/Texts.antt =====
-- Comparing texts compares snapshots.
use qbo_invoice_sync.Common.{
  ◌≡◌, ◌↔◌, sym, ap, true, Option, none, some, text_eq_sound, text_eq_refl,
}
use qbo_invoice_sync.Invoice.{ComparableInvoice, comparable_text}
use qbo_invoice_sync.Invoice.Snapshots.{comparable_text_inj}
use qbo_invoice_sync.Resolver.{same_text, equals}

pub same_text_iff : (a b : ComparableInvoice) → (same_text a b ≡ true) ↔ (a ≡ b)
unfolding same_text
same_text_iff a b = (
  λ h. comparable_text_inj a b (text_eq_sound _ _ h),
  λ e. rw e (text_eq_refl (comparable_text b)),
)

pub equals_iff :
    (a : ComparableInvoice) (b : Option ComparableInvoice) → (equals a b ≡ true) ↔ (b ≡ some a)
unfolding equals
equals_iff a none = (λ h. cc, λ h. cc)
equals_iff a (some b) =
    (λ h. ap some (sym ((same_text_iff a b).0 h)), λ e. (same_text_iff a b).1 (cc))
