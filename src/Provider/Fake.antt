-- ===== src/Provider/Fake.antt =====
-- The in-memory provider (src/providers/fake/fakeProvider.ts). A Map is the list of its entries in
-- the order of their insertion; an entry that is set again keeps its place.
use Prim.Native.String.{◌++◌ as text_append}
use qbo_invoice_sync.Common.{
  ℕ, ◌+◌, Bool, true, false, ◌&&◌, Option, none, some, List, [], ◌∷◌, ◌++◌, map, String, str_eq,
  text_eq, length, if◌then◌else◌,
}
use qbo_invoice_sync.Common.Int.{pos, ◌-ℤ◌, leb_ℤ}
use qbo_invoice_sync.Errors.{
  SyncError, plain_error, Result, transient_provider_error, permanent_provider_error,
  stale_version_error, ambiguous_write_error, ok, err,
}
use qbo_invoice_sync.Webhooks.{ProviderWebhookEvent}
use qbo_invoice_sync.Action.{Action, pure, gets, modify, guard, or_raise, ◌>>=◌, ◌>>◌}
use qbo_invoice_sync.Invoice.{
  InvoiceStatus, partial, paid, CanonicalLine, CanonicalInvoice, PaymentAllocation,
  CanonicalPayment,
}
use qbo_invoice_sync.Invoice
use qbo_invoice_sync.Provider.{ExternalInvoiceState, ExternalPaymentState, AccountingProvider}

pub record StoredInvoice : Type 0 where
  pub external_id : String
  pub sync_token : ℕ
  pub invoice : CanonicalInvoice

pub record StoredPayment : Type 0 where
  pub external_id : String
  pub sync_token : ℕ
  pub payment : CanonicalPayment

pub data FailureMode : Type 0 where
  transient permanent timeout_after_write : FailureMode

-- `draws` counts the ids that `randomUUID()` has made.
pub record FakeState : Type 0 where
  pub invoices : List StoredInvoice
  pub payments : List StoredPayment
  pub failures : List FailureMode
  pub reallocations : List (List PaymentAllocation)
  pub calls : List String
  pub draws : ℕ

abbrev pub fail_next : FailureMode → FakeState → FakeState
fail_next mode s = record s { failures = s.failures ++ (mode ∷ []) }

abbrev pub reallocate_next_payment : List PaymentAllocation → FakeState → FakeState
reallocate_next_payment allocations s = record s {
  reallocations = s.reallocations ++ (allocations ∷ []);
}

abbrev pub injected : FailureMode → SyncError
injected transient = record {
  kind = transient_provider_error;
  message = "injected transient failure";
}
injected permanent = record {
  kind = permanent_provider_error;
  message = "injected permanent failure";
}
injected timeout_after_write = record {
  kind = ambiguous_write_error;
  message = "injected timeout after write";
}

-- The write, or the failure that is next in the queue.
unfoldable pub maybe_fail : (FakeState → FakeState) → Action FakeState Unit
maybe_fail write s = elim s.failures [
  | [] ↦ (ok tt, write s)
  | mode ∷ rest ↦ elim mode [
    | timeout_after_write ↦
        (err (injected timeout_after_write), write (record s { failures = rest }))
    | other ↦ (err (injected other), record s { failures = rest })
  ]
]

abbrev pub log_call : String → String → Action FakeState Unit
log_call op argument =
    modify (λ s. record s { calls = s.calls ++ (text_append op (text_append ":" argument) ∷ []) })

unfoldable pub find_stored : String → List StoredInvoice → Option StoredInvoice
find_stored id [] = none
find_stored id (x ∷ xs) = if str_eq x.external_id id then some x else find_stored id xs

unfoldable pub set_stored : StoredInvoice → List StoredInvoice → List StoredInvoice
set_stored new [] = new ∷ []
set_stored new (x ∷ xs) =
    if str_eq x.external_id new.external_id then new ∷ xs else x ∷ set_stored new xs

unfoldable pub set_payment : StoredPayment → List StoredPayment → List StoredPayment
set_payment new [] = new ∷ []
set_payment new (x ∷ xs) =
    if str_eq x.external_id new.external_id then new ∷ xs else x ∷ set_payment new xs

abbrev pub not_deleted : InvoiceStatus → Bool
not_deleted Invoice.InvoiceStatus.deleted = false
not_deleted _ = true

unfoldable pub find_numbered : String → List StoredInvoice → Option StoredInvoice
find_numbered doc [] = none
find_numbered doc (x ∷ xs) =
    if str_eq x.invoice.doc_number doc && not_deleted x.invoice.status
    then some x
    else find_numbered doc xs

unfoldable pub find_stored_payment : String → List StoredPayment → Option StoredPayment
find_stored_payment id [] = none
find_stored_payment id (x ∷ xs) =
    if str_eq x.external_id id then some x else find_stored_payment id xs

abbrev pub has_reference : List ℕ → CanonicalPayment → Bool
has_reference code p = elim p.reference_code [ none ↦ false | some c ↦ text_eq c code ]

unfoldable pub find_referenced : List ℕ → List StoredPayment → Option StoredPayment
find_referenced code [] = none
find_referenced code (x ∷ xs) =
    if has_reference code x.payment then some x else find_referenced code xs

abbrev pub void_line : CanonicalLine → CanonicalLine
void_line l = record l { unit_price_cents = pos 0; amount_cents = pos 0 }

abbrev pub voided_invoice : CanonicalInvoice → CanonicalInvoice
voided_invoice i = record i {
  status = Invoice.InvoiceStatus.voided;
  total_cents = pos 0;
  balance_cents = pos 0;
  lines = map void_line i.lines;
}

abbrev pub pay_down : PaymentAllocation → StoredInvoice → StoredInvoice
pay_down a x =
    if str_eq x.invoice.doc_number a.invoice_doc_number
    then record x {
      sync_token = x.sync_token + 1;
      invoice = record (x.invoice) {
        balance_cents = x.invoice.balance_cents -ℤ a.amount_cents;
        status =
            if leb_ℤ (x.invoice.balance_cents -ℤ a.amount_cents) (pos 0) then paid else partial;
      };
    }
    else x

unfoldable pub pay_all : List PaymentAllocation → List StoredInvoice → List StoredInvoice
pay_all [] xs = xs
pay_all (a ∷ rest) xs = pay_all rest (map (pay_down a) xs)

abbrev pub missing : SyncError
missing = record { kind = permanent_provider_error; message = "not found" }

abbrev pub invalid_json : SyncError
invalid_json = record { kind = plain_error; message = "invalid JSON" }

abbrev pub stale : SyncError
stale = record { kind = stale_version_error; message = "stale sync token" }

-- `directlyGetInvoice`
abbrev pub directly_get_invoice : String → FakeState → Option StoredInvoice
directly_get_invoice id s = find_stored id s.invoices

unfoldable pub drop_stored : String → List StoredInvoice → List StoredInvoice
drop_stored id [] = []
drop_stored id (x ∷ xs) = if str_eq x.external_id id then xs else x ∷ drop_stored id xs

-- `directlyDeleteInvoice`: a hard deletion in the provider's own pages
unfoldable pub directly_delete_invoice : String → FakeState → FakeState
unfolding drop_stored
directly_delete_invoice id s = record s { invoices = drop_stored id s.invoices }

abbrev pub invoice_count : FakeState → ℕ
invoice_count s = length s.invoices

module _ (uuid print : ℕ → String) where
  abbrev pub state_of : StoredInvoice → ExternalInvoiceState
  state_of x = record {
    external_id = x.external_id;
    sync_token = print x.sync_token;
    invoice = some x.invoice;
  }

  abbrev pub payment_state_of : StoredPayment → ExternalPaymentState
  payment_state_of x = record {
    external_id = x.external_id;
    sync_token = print x.sync_token;
    payment = some x.payment;
  }

  -- `directlySetInvoice`: an edit in the provider's own pages
  abbrev pub directly_set_invoice : String → CanonicalInvoice → FakeState → FakeState
  directly_set_invoice id invoice s =
      let token : ℕ = elim (find_stored id s.invoices) [ none ↦ 1 | some x ↦ x.sync_token + 1 ] in
      record s {
        invoices =
            set_stored (record { external_id = id; sync_token = token; invoice = invoice })
              s.invoices;
      }

  unfoldable pub get_invoice : String → Action FakeState (Option ExternalInvoiceState)
  unfolding find_stored
  get_invoice id = do
    log_call "getInvoice" id
    gets (λ s. elim (find_stored id s.invoices) [ none ↦ none | some x ↦ some (state_of x) ])

  unfoldable pub find_invoice_by_doc_number :
      String → Action FakeState (Option ExternalInvoiceState)
  unfolding find_numbered
  find_invoice_by_doc_number doc = do
    log_call "findInvoiceByDocNumber" doc
    gets (λ s. elim (find_numbered doc s.invoices) [ none ↦ none | some x ↦ some (state_of x) ])

  -- `randomUUID()`
  abbrev pub draw_id : Action FakeState String
  draw_id s = (ok (uuid s.draws), record s { draws = s.draws + 1 })

  unfoldable pub create_invoice : CanonicalInvoice → Action FakeState ExternalInvoiceState
  unfolding maybe_fail set_stored
  create_invoice invoice = do
    log_call "createInvoice" invoice.doc_number
    id ← draw_id
    maybe_fail (λ s. record s {
      invoices =
          set_stored (record { external_id = id; sync_token = 0; invoice = invoice }) s.invoices;
    })
    pure (record { external_id = id; sync_token = "0"; invoice = some invoice })

  -- The record that is written to, at the version that the caller has seen.
  abbrev pub current_stored : String → String → Action FakeState StoredInvoice
  current_stored id token = do
    found ← gets (λ s. find_stored id s.invoices)
    stored ← or_raise missing found
    guard (str_eq (print stored.sync_token) token) stale
    pure stored

  abbrev pub write_stored : StoredInvoice → CanonicalInvoice → Action FakeState ExternalInvoiceState
  write_stored stored invoice =
      let new = record stored { sync_token = stored.sync_token + 1; invoice = invoice } in
      maybe_fail (λ s. record s { invoices = set_stored new s.invoices }) >> pure (state_of new)

  unfoldable pub update_invoice :
      String → String → CanonicalInvoice → Action FakeState ExternalInvoiceState
  unfolding find_stored maybe_fail set_stored
  update_invoice id token invoice = do
    log_call "updateInvoice" id
    stored ← current_stored id token
    write_stored stored invoice

  unfoldable pub void_invoice : String → String → Action FakeState ExternalInvoiceState
  unfolding find_stored maybe_fail set_stored
  void_invoice id token = do
    log_call "voidInvoice" id
    stored ← current_stored id token
    write_stored stored (voided_invoice stored.invoice)

  unfoldable pub get_payment : String → Action FakeState (Option ExternalPaymentState)
  unfolding find_stored_payment
  get_payment id = do
    log_call "getPayment" id
    gets (λ s. elim (find_stored_payment id s.payments) [
      | none ↦ none
      | some x ↦ some (payment_state_of x)
    ])

  -- The call is not logged: a reference is a list of code points, the log holds texts.
  unfoldable pub find_payment_by_reference : List ℕ → Action FakeState (Option ExternalPaymentState)
  unfolding find_referenced
  find_payment_by_reference code = gets (λ s. elim (find_referenced code s.payments) [
    | none ↦ none
    | some x ↦ some (payment_state_of x)
  ])

  -- `reallocations.shift()`, and the payment as it is stored
  abbrev pub reallocated : CanonicalPayment → Action FakeState CanonicalPayment
  reallocated payment s = elim s.reallocations [
    | [] ↦ (ok payment, s)
    | allocations ∷ rest ↦
        (ok (record payment { allocations = allocations }), record s { reallocations = rest })
  ]

  unfoldable pub create_payment : CanonicalPayment → String → Action FakeState ExternalPaymentState
  unfolding maybe_fail pay_all set_payment
  create_payment payment invoice_external_id = do
    log_call "createPayment" invoice_external_id
    id ← draw_id
    stored ← reallocated payment
    maybe_fail (λ s. record s {
      payments =
          set_payment (record { external_id = id; sync_token = 0; payment = stored }) s.payments;
      invoices = pay_all stored.allocations s.invoices;
    })
    pure (record { external_id = id; sync_token = "0"; payment = some stored })

  -- `directlyAddPayment`: a payment that was recorded in the provider's own pages
  unfoldable pub directly_add_payment : CanonicalPayment → FakeState → FakeState × String
  unfolding pay_all set_payment
  directly_add_payment payment s = (
    record s {
      payments =
          set_payment (record { external_id = uuid s.draws; sync_token = 0; payment = payment })
            s.payments;
      invoices = pay_all payment.allocations s.invoices;
      draws = s.draws + 1;
    },
    uuid s.draws,
  )

  abbrev pub parsed_events : Option (List ProviderWebhookEvent) → Result (List ProviderWebhookEvent)
  parsed_events none = err invalid_json
  parsed_events (some events) = ok events

  -- The provider, with the `JSON.parse` of its notifications.
  abbrev pub fake_provider :
      (List ℕ → Option (List ProviderWebhookEvent)) → AccountingProvider FakeState
  fake_provider parse = record {
    name = "fake";
    get_invoice = get_invoice;
    find_invoice_by_doc_number = find_invoice_by_doc_number;
    create_invoice = create_invoice;
    update_invoice = update_invoice;
    void_invoice = void_invoice;
    get_payment = get_payment;
    find_payment_by_reference = find_payment_by_reference;
    create_payment = create_payment;
    verify_webhook_signature = λ raw_body signature. true;
    parse_webhook = λ now raw_body. parsed_events (parse raw_body);
  }
