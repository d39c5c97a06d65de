-- ===== src/QuickBooks/Tests.antt =====
-- The adapter before a service that answers everything with one reply, and the theorems there.
use qbo_invoice_sync.Common.{
  Option, String, ℕ, suc, ◌+◌, ◌≤◌, ◌≡◌, refl, none, some, or_else, [], ◌∷◌, arith,
}
use qbo_invoice_sync.Common.Int.{pos}
use qbo_invoice_sync.Errors.{Result, ok, err}
use qbo_invoice_sync.Action.{◌>>=◌, traverse}
use qbo_invoice_sync.Invoice.{open_status, CanonicalInvoice, CanonicalPayment}
use qbo_invoice_sync.Numbers.{Number, number_to_cents}
use qbo_invoice_sync.Money.{decimal_string_to_cents}
use qbo_invoice_sync.Decimal.{to_digits}
use qbo_invoice_sync.Provider.{ExternalPaymentState}
use qbo_invoice_sync.Tokens.{ProviderTokens, get_tokens}
use qbo_invoice_sync.QuickBooks.{
  QboConfig, sandbox, QboInvoiceJson, QboPaymentJson, Reply, QboInvoiceBody, Outside, Qbo,
  read_time,
}
use qbo_invoice_sync.QuickBooks.Auth
use qbo_invoice_sync.QuickBooks.Auth.{
  unknown_state, handle_callback, get_access_token, require_tokens,
}
use qbo_invoice_sync.QuickBooks.Auth.Callback.{callback_once}
use qbo_invoice_sync.QuickBooks.Auth.Access.{Source, access_token_valid}
use qbo_invoice_sync.QuickBooks.Mapper.{to_qbo_invoice_body}
use qbo_invoice_sync.QuickBooks.Port.{to_payment_state}
use qbo_invoice_sync.QuickBooks.Port.Links.{Allocated}
use qbo_invoice_sync.QuickBooks.Port.Allocations.{Keeps, allocations_kept}

abbrev config : QboConfig
config = record {
  client_id = "client";
  client_secret = "secret";
  redirect_uri = "http://localhost/callback";
  webhook_verifier_token = "verifier";
  environment = sandbox;
}

abbrev qbo_invoice : QboInvoiceJson
qbo_invoice = record {
  id = "130";
  sync_token = "0";
  doc_number = some "INV-1";
  customer_ref = none;
  currency_ref = none;
  private_note = none;
  total_amt = none;
  balance = none;
  line = none;
  last_updated_time = none;
}

abbrev reply : Reply
reply = record {
  invoice = some qbo_invoice;
  payment = none;
  customer = none;
  query_response = some (record {
    invoices = none;
    payments = none;
    customers = some (record { id = "9"; display_name = some "Acme" } ∷ []);
    items = none;
  });
}

-- The state of the service counts its requests.
abbrev out : Outside ℕ
out = record {
  clock = λ n. 1000 + n;
  random_hex = λ n. "f0";
  ask_token = λ q n. (some (record { status = 400; body = none }), suc n);
  send = λ q n. (some (record { status = 200; text = []; body = some reply }), suc n);
  parse_fault = λ text. none;
  hmac = λ key text. text;
  parse_payload = λ text. none;
}

abbrev tokens : ProviderTokens
tokens = record {
  provider = "quickbooks";
  realm_id = "4620";
  access_token = "a1";
  refresh_token = "r1";
  access_token_expires_at = 3600000;
  refresh_token_expires_at = 8000000;
}

abbrev world : Qbo ℕ
world = record {
  pending_states = "f0" ∷ [];
  request_timestamps = [];
  tokens = record { tokens = tokens; updated_at = 5 } ∷ [];
  items =
      record {
        provider = "quickbooks";
        item_code = "WIDGET";
        external_item_id = "7";
        external_name = none;
      }
      ∷ [];
  net = 0;
  readings = 0;
  slept = 0;
}

forward : (m n : ℕ) → m ≤ n → out.clock m ≤ out.clock n
forward m n h = omega arith

-- The endpoint refuses the code; the state is used up.
refused_callback :
    handle_callback config out "code" "4620" "f0" world
    ≡ (err Auth.request_rejected, record world { pending_states = []; net = 1 })
unfolding handle_callback ◌>>=◌ Auth.has_state Auth.drop_state Auth.token_request
    Auth.read_token_answer
refused_callback = refl

callback_once_example :
    handle_callback config out "code" "4620" "f0" (record world { pending_states = []; net = 1 })
    ≡ (err unknown_state, record world { pending_states = []; net = 1 })
callback_once_example =
    callback_once config out "code" "4620" "f0" world
      (record world { pending_states = []; net = 1 }) (err Auth.request_rejected) "code" "4620"
      refused_callback

stored_token : get_access_token config out world ≡ (ok "a1", record world { readings = 1 })
unfolding get_access_token ◌>>=◌ require_tokens get_tokens read_time
stored_token = refl

access_token_valid_example :
    (s : ProviderTokens) × (get_tokens "quickbooks" world.tokens ≡ some s)
    × (s.access_token ≡ "a1")
    × Source config out world (record world { readings = 1 }) s
access_token_valid_example =
    access_token_valid config out world (record world { readings = 1 }) "a1" stored_token

abbrev invoice : CanonicalInvoice
invoice = record {
  doc_number = "INV-1";
  customer_name = "Acme";
  status = open_status;
  currency = "USD";
  notes = none;
  lines =
      record {
        line_no = 1;
        item_code = "WIDGET";
        description = none;
        quantity = pos 2;
        unit_price_cents = pos 150;
        amount_cents = pos 300;
      }
      ∷ [];
  total_cents = pos 300;
  balance_cents = pos 300;
  source_updated_at = some 10;
}

abbrev dollars : ℕ → Number
dollars cents = record { mantissa = pos cents; scale = 2 }

abbrev body : QboInvoiceBody
body = record {
  existing = none;
  doc_number = "INV-1";
  customer_id = "9";
  private_note = none;
  lines =
      record {
        amount = dollars 300;
        description = none;
        item_id = "7";
        qty = pos 2;
        unit_price = dollars 150;
      }
      ∷ [];
}

abbrev sent : Result QboInvoiceBody × Qbo ℕ
sent = to_qbo_invoice_body config out invoice none world

-- The only customer there is.
abbrev names : String → Option String
names id = some "Acme"

abbrev qbo_payment : QboPaymentJson
qbo_payment = record {
  id = "77";
  sync_token = "0";
  total_amt = some (dollars 300);
  payment_ref_num = none;
  txn_date = some (some 5);
  line = some (
      record {
        amount = some (dollars 300);
        linked_txn = some (record { txn_id = some "130"; txn_type = some "Invoice" } ∷ []);
      }
      ∷ []);
  last_updated_time = none;
}

abbrev read_payment : Result ExternalPaymentState × Qbo ℕ
read_payment = to_payment_state config out qbo_payment world

abbrev payment_state : ExternalPaymentState
payment_state = record {
  external_id = "77";
  sync_token = "0";
  payment = some (record {
    amount_cents = pos 300;
    method = none;
    received_at = some 5;
    allocations = record { invoice_doc_number = "INV-1"; amount_cents = pos 300 } ∷ [];
    reference_code = none;
  });
}

payment_read : read_payment.0 ≡ ok payment_state
unfolding to_payment_state ◌>>=◌ traverse number_to_cents decimal_string_to_cents to_digits
    get_tokens
payment_read = refl

allocations_kept_example :
    (p : CanonicalPayment) × (payment_state.payment ≡ some p)
    × Allocated (Keeps config out) (or_else qbo_payment.line []) p.allocations
allocations_kept_example =
    allocations_kept config out qbo_payment world read_payment.1 payment_state
      (λ i. (payment_read i, read_payment.1))
