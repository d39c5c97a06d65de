-- ===== src/QuickBooks/Port/Allocations.antt =====
-- A payment of QuickBooks keeps each of its allocations (`toPaymentState` of
-- src/providers/quickbooks/qboProvider.ts).
use qbo_invoice_sync.Common.{
  ◌≡◌, ◌≢◌, sym, ap, subst, ◌∙◌, Option, none, some, or_else, List, [], ◌++◌, codes, String,
  Pairwise-trans,
}
use qbo_invoice_sync.Common.Int.{ℤ}
use qbo_invoice_sync.Errors.{ok}
use qbo_invoice_sync.Action.{or_raise, or_raise-ok, lift, pure-ok, traverse, traverse-ok, >>=-ok}
use qbo_invoice_sync.Invoice.{PaymentAllocation, CanonicalPayment}
use qbo_invoice_sync.Numbers.{Number}
use qbo_invoice_sync.Provider.{ExternalPaymentState}
use qbo_invoice_sync.QuickBooks.{QboConfig, QboInvoiceJson, QboPaymentJson, Outside, Qbo, Reply}
use qbo_invoice_sync.QuickBooks.Client.{get}
use qbo_invoice_sync.QuickBooks.Fields.{cents_of_amount}
use qbo_invoice_sync.QuickBooks.Mapper.{
  read_allocation, linked_invoice_allocations, from_qbo_payment, or_now, first_date,
}
use qbo_invoice_sync.QuickBooks.Port.Links.{truthy-some, Allocated, line_allocations-Allocated}
use qbo_invoice_sync.QuickBooks.Port.{
  number_of, invoice_of, invoice_path, unresolved, resolve_allocation, to_payment_state,
}

-- What an allocation is of the payment's line: of its amount, to an invoice with the number that the
-- service gave, at some time, for the invoice that the line is linked to.
pub record Keeps {N : Type 0} (config : QboConfig) (out : Outside N) (line : String × Option Number)
    (a : PaymentAllocation) : Type 0 where
  pub amount : cents_of_amount line.1 ≡ ok a.amount_cents
  pub numbered : a.invoice_doc_number ≢ ""
  pub asked : Qbo N
  pub reply : Option Reply
  pub found : (get config out (codes "/invoice/" ++ codes line.0) asked).0 ≡ ok reply
  pub linked : number_of (invoice_of reply) ≡ some a.invoice_doc_number

number_of-given : (o : Option QboInvoiceJson) {s : String} → number_of o ≡ some s → s ≢ ""
number_of-given none e = cc
number_of-given (some q) e = (truthy-some q.doc_number e).1

abbrev Read : String × Option Number → String × ℤ → Type 0
Read (id, amount) (id2, cents) = (cents_of_amount amount ≡ ok cents) × (id2 ≡ id)

module _ {N : Type 0} (config : QboConfig) (out : Outside N) where
  read_allocation-Read :
      (x : String × Option Number) (s t : Qbo N) (y : String × ℤ)
      → read_allocation config out x s ≡ (ok y, t)
      → Read x y
  read_allocation-Read (id, amount) s t y e =
      let (cents, u, p, q) = >>=-ok (lift (cents_of_amount amount)) _ s e in
      let (same, end) = pure-ok (id, cents) u q in
      (ap (λ r. r.0) p ∙ ap (λ z. ok z.1) same, ap (λ z. z.0) (sym same))

  record Resolved (x : String × ℤ) (a : PaymentAllocation) : Type 0 where
    cents : a.amount_cents ≡ x.1
    given : a.invoice_doc_number ≢ ""
    asked : Qbo N
    reply : Option Reply
    found : (get config out (codes "/invoice/" ++ codes x.0) asked).0 ≡ ok reply
    number : number_of (invoice_of reply) ≡ some a.invoice_doc_number

  resolve_allocation-Resolved :
      (x : String × ℤ) (s t : Qbo N) (a : PaymentAllocation)
      → resolve_allocation config out x s ≡ (ok a, t)
      → Resolved x a
  unfolding resolve_allocation
  resolve_allocation-Resolved (id, cents) s t a e =
      let (reply, u, p, q) = >>=-ok (get config out (invoice_path config out id)) _ s e in
      let (doc_number, u1, p1, q1) =
        >>=-ok (or_raise unresolved (number_of (invoice_of reply))) _ u q in
      let (found, start) = or_raise-ok unresolved (number_of (invoice_of reply)) u p1 in
      let (same, end) = pure-ok _ u1 q1 in
      record {
        cents = ap (λ z. z.amount_cents) (sym same);
        given =
            subst (λ z. z.invoice_doc_number ≢ "") same (number_of-given (invoice_of reply) found);
        asked = s;
        reply = reply;
        found = ap (λ r. r.0) p;
        number = found ∙ ap (λ z. some z.invoice_doc_number) same;
      }

  Read-Keeps :
      (x : String × Option Number) (y : String × ℤ) (a : PaymentAllocation)
      → Read x y
      → Resolved y a
      → Keeps config out x a
  Read-Keeps x y a r k = record {
    amount = r.0 ∙ ap ok (sym k.cents);
    numbered = k.given;
    asked = k.asked;
    reply = k.reply;
    found =
        subst (λ id. (get config out (codes "/invoice/" ++ codes id) k.asked).0 ≡ ok k.reply) r.1
          k.found;
    linked = k.number;
  }

  from_qbo_payment-allocations :
      (qbo : QboPaymentJson) (allocations : List PaymentAllocation) (s t : Qbo N)
      (p : CanonicalPayment)
      → from_qbo_payment config out qbo allocations s ≡ (ok p, t)
      → p.allocations ≡ allocations
  unfolding from_qbo_payment
  from_qbo_payment-allocations qbo allocations s t p e =
      let (amount, u, p0, q) = >>=-ok (lift (cents_of_amount qbo.total_amt)) _ s e in
      let (received_at, u1, p1, q1) =
        >>=-ok (or_now config out (first_date config out qbo.txn_date qbo.last_updated_time)) _ u
          q in
      let (same, end) = pure-ok _ u1 q1 in ap (λ z. z.allocations) (sym same)

-- A payment that is read from QuickBooks has, for each of its lines that is linked to an invoice (a
-- line to the first that it links) and in their order, one allocation: of that line's amount, to the
-- number that the service gave for that invoice, which is not empty. Where one cannot be had, the
-- payment is not reported at all.
pub allocations_kept :
    {N : Type 0} (config : QboConfig) (out : Outside N) (qbo : QboPaymentJson) (w v : Qbo N)
    (state : ExternalPaymentState)
    → to_payment_state config out qbo w ≡ (ok state, v)
    → (p : CanonicalPayment) × (state.payment ≡ some p)
      × Allocated (Keeps config out) (or_else qbo.line []) p.allocations
unfolding to_payment_state linked_invoice_allocations
allocations_kept config out qbo w v state e =
    let (linked, u, p, q) = >>=-ok (linked_invoice_allocations config out qbo) _ w e in
    let (allocations, u1, p1, q1) =
      >>=-ok (traverse (resolve_allocation config out) linked) _ u q in
    let (payment, u2, p2, q2) = >>=-ok (from_qbo_payment config out qbo allocations) _ u1 q1 in
    let (same, end) = pure-ok _ u2 q2 in
    (
      payment,
      ap (λ x. x.payment) (sym same),
      subst (Allocated (Keeps config out) _)
          (sym (from_qbo_payment-allocations config out qbo allocations u1 u2 payment p2))
          (line_allocations-Allocated (or_else qbo.line []) allocations (
            Pairwise-trans {R = Read} {S = Resolved config out} {T = Keeps config out}
              (Read-Keeps config out)
              (traverse-ok Read _ (read_allocation-Read config out) _ w u linked p)
              (traverse-ok (Resolved config out) _ (resolve_allocation-Resolved config out) linked u
                u1 allocations p1))),
    )
