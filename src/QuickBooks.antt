-- ===== src/QuickBooks.antt =====
-- The QuickBooks adapter (src/providers/quickbooks/): what it keeps, what it is given, and what it
-- sends and receives. The answers of the service, over HTTP, are a parameter; the properties that
-- the program reads of them are records here, as the source's casts have them.
pub mod Pacing
pub mod Auth
pub mod Client
pub mod Fields
pub mod Mapper
pub mod Port
mod Tests
use qbo_invoice_sync.Common.{ℕ, suc, ◌+◌, Option, List, String}
use qbo_invoice_sync.Common.Int.{ℤ}
use qbo_invoice_sync.Errors.{Result, ok}
use qbo_invoice_sync.Action.{Action}
use qbo_invoice_sync.Invoice.{Date}
use qbo_invoice_sync.Webhooks.{WebhookPayload}
use qbo_invoice_sync.Numbers.{Number}
use qbo_invoice_sync.Tokens.{TokenRow}
use qbo_invoice_sync.Items.{ItemRow}

pub data Environment : Type 0 where
  sandbox production : Environment

pub record QboConfig : Type 0 where
  pub client_id : String
  pub client_secret : String
  pub redirect_uri : String
  pub webhook_verifier_token : String
  pub environment : Environment

pub record QboRef : Type 0 where
  pub value : String
  pub name : Option String

pub record QboLineDetail : Type 0 where
  pub item_ref : Option QboRef
  pub qty : Option Number
  pub unit_price : Option Number

pub record QboLine : Type 0 where
  pub detail_type : Option String
  pub amount : Option Number
  pub description : Option String
  pub sales_item_line_detail : Option QboLineDetail

-- `LastUpdatedTime` is kept as the date that it denotes.
pub record QboInvoiceJson : Type 0 where
  pub id : String
  pub sync_token : String
  pub doc_number : Option String
  pub customer_ref : Option QboRef
  pub currency_ref : Option String
  pub private_note : Option String
  pub total_amt : Option Number
  pub balance : Option Number
  pub line : Option (List QboLine)
  pub last_updated_time : Option Date

pub record LinkedTxn : Type 0 where
  pub txn_id : Option String
  pub txn_type : Option String

pub record QboPaymentLine : Type 0 where
  pub amount : Option Number
  pub linked_txn : Option (List LinkedTxn)

pub record QboPaymentJson : Type 0 where
  pub id : String
  pub sync_token : String
  pub total_amt : Option Number
  pub payment_ref_num : Option (List ℕ)
  pub txn_date : Option Date
  pub line : Option (List QboPaymentLine)
  pub last_updated_time : Option Date

pub record QboCustomerJson : Type 0 where
  pub id : String
  pub display_name : Option String

pub record QboItemJson : Type 0 where
  pub id : String
  pub name : String

-- `QueryResponse`: the found records, by their kind.
pub record QueryResponse : Type 0 where
  pub invoices : Option (List QboInvoiceJson)
  pub payments : Option (List QboPaymentJson)
  pub customers : Option (List QboCustomerJson)
  pub items : Option (List QboItemJson)

-- The properties that are read of an answer's body.
pub record Reply : Type 0 where
  pub invoice : Option QboInvoiceJson
  pub payment : Option QboPaymentJson
  pub customer : Option QboCustomerJson
  pub query_response : Option QueryResponse

pub record QboLineBody : Type 0 where
  pub amount : Number
  pub description : Option String
  pub item_id : String
  pub qty : ℤ
  pub unit_price : Number

-- `Id` and `SyncToken` of the invoice that is replaced; none for a new one.
pub record QboInvoiceBody : Type 0 where
  pub existing : Option (String × String)
  pub doc_number : String
  pub customer_id : String
  pub private_note : Option String
  pub lines : List QboLineBody

pub record QboPaymentBody : Type 0 where
  pub total_amt : Number
  pub customer_id : Option String
  pub payment_ref_num : Option (List ℕ)
  pub txn_date : Date
  pub line_amount : Number
  pub txn_id : String

pub data Body : Type 0 where
  invoice_body : QboInvoiceBody → Body
  void_body : String → String → Body
  payment_body : QboPaymentBody → Body
  customer_body : String → Body

pub data Method : Type 0 where
  get_method post_method : Method

pub record Request : Type 0 where
  pub method : Method
  pub url : List ℕ
  pub token : String
  pub body : Option Body

-- The body is none where `res.json()` throws.
pub record Answer : Type 0 where
  pub status : ℕ
  pub text : List ℕ
  pub body : Option Reply

pub record TokenResponse : Type 0 where
  pub access_token : String
  pub refresh_token : String
  pub expires_in : ℕ
  pub x_refresh_token_expires_in : ℕ

pub data Grant : Type 0 where
  authorization_code : (code redirect_uri : String) → Grant
  refresh_token : String → Grant

-- A request to the token endpoint, with the client's credentials.
pub record TokenRequest : Type 0 where
  pub client_id : String
  pub client_secret : String
  pub grant : Grant

pub record TokenAnswer : Type 0 where
  pub status : ℕ
  pub body : Option TokenResponse

-- The codes of a fault, under `Fault.Error` and `fault.error`.
pub record FaultJson : Type 0 where
  pub upper : Option (List (Option String))
  pub lower : Option (List (Option String))

-- What runs outside, `N` being the state of the service: the two endpoints, which answer nothing
-- where `fetch` throws; the clock at each reading, without the time slept; `randomBytes`;
-- `JSON.parse` of a fault and of a notification; and the HMAC under a key, in base64.
pub record Outside (N : Type 0) : Type 0 where
  pub clock : ℕ → ℕ
  pub random_hex : ℕ → String
  pub ask_token : TokenRequest → N → Option TokenAnswer × N
  pub send : Request → N → Option Answer × N
  pub parse_fault : List ℕ → Option FaultJson
  pub hmac : String → List ℕ → List ℕ
  pub parse_payload : List ℕ → Option WebhookPayload

-- The state: of `QboAuth` and `QboClient`, the tables that they use, the service's, how often the
-- clock was read and how long the program has slept.
pub record Qbo (N : Type 0) : Type 0 where
  pub pending_states : List String
  pub request_timestamps : List ℕ
  pub tokens : List TokenRow
  pub items : List ItemRow
  pub net : N
  pub readings : ℕ
  pub slept : ℕ

module _ {N : Type 0} (out : Outside N) where
  -- `Date.now()`
  abbrev pub time_of : Qbo N → ℕ
  time_of w = out.clock w.readings + w.slept

  unfoldable pub read_time : Action (Qbo N) ℕ
  read_time w = (ok (time_of w), record w { readings = w.readings + 1 })
