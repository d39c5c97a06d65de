-- ===== src/QuickBooks/Client.antt =====
-- src/providers/quickbooks/qboClient.ts: authorised requests, one retry after a refused token, and
-- the errors that the answers stand for.
pub mod Reports
pub mod Outcomes
use qbo_invoice_sync.Common.{
  ℕ, ◌+◌, Bool, true, false, ◌&&◌, ◌||◌, not, Option, none, some, or_else, List, [], ◌∷◌, ◌++◌,
  codes, String, str_eq, leb, ◌==◌, if◌then◌else◌,
}
use qbo_invoice_sync.Errors.{
  SyncError, transient_provider_error, permanent_provider_error, stale_version_error,
  ambiguous_write_error, Result, ok, err,
}
use qbo_invoice_sync.Action.{Action, pure, raise, gets, modify, or_raise, ◌>>=◌, ◌>>◌}
use qbo_invoice_sync.Urls.{encode_uri_component}
use qbo_invoice_sync.QuickBooks.{
  QboConfig, Environment, sandbox, production, QueryResponse, Reply, Body, Method, get_method,
  post_method, Request, Answer, FaultJson, Outside, Qbo, read_time,
}
use qbo_invoice_sync.QuickBooks.Pacing.{recent, wait_ms}
use qbo_invoice_sync.QuickBooks.Auth.{
  is_ok_status, not_json, get_realm_id, get_access_token, force_refresh,
}

abbrev pub lost_write : SyncError
lost_write = record { kind = ambiguous_write_error; message = "QBO request failed after send" }

abbrev pub network_failure : SyncError
network_failure = record { kind = transient_provider_error; message = "QBO network failure" }

abbrev pub service_busy : SyncError
service_busy = record { kind = transient_provider_error; message = "QBO is busy or failing" }

abbrev pub stale_token : SyncError
stale_token = record { kind = stale_version_error; message = "QBO stale SyncToken" }

abbrev pub rejected : SyncError
rejected = record { kind = permanent_provider_error; message = "QBO rejected the request" }

abbrev pub empty_result : SyncError
empty_result = record {
  kind = permanent_provider_error;
  message = "QBO POST returned an unexpected empty result";
}

abbrev pub base_url : Environment → List ℕ
base_url sandbox = codes "https://sandbox-quickbooks.api.intuit.com"
base_url production = codes "https://quickbooks.api.intuit.com"

-- `path.includes("?")`
unfoldable pub has_query : List ℕ → Bool
has_query [] = false
has_query (c ∷ s) = c == b'?' || has_query s

unfoldable pub request_url : QboConfig → String → List ℕ → List ℕ
unfolding has_query
request_url config realm_id path =
    base_url config.environment
    ++ (codes "/v3/company/"
        ++ (codes realm_id
            ++ (path ++ ((if has_query path then b'&' else b'?') ∷ codes "minorversion=75"))))

-- `errors.map((e) => e.code ?? "").filter(Boolean)`
unfoldable pub present_codes : List (Option String) → List String
present_codes [] = []
present_codes (none ∷ cs) = present_codes cs
present_codes (some c ∷ cs) = if str_eq c "" then present_codes cs else c ∷ present_codes cs

abbrev pub first_present : {A : Type 0} → Option A → Option A → Option A
first_present (some a) b = some a
first_present none b = b

unfoldable pub parse_fault_codes : (List ℕ → Option FaultJson) → List ℕ → List String
unfolding present_codes
parse_fault_codes parse text = elim (parse text) [
  | none ↦ []
  | some fault ↦ present_codes (or_else (first_present fault.upper fault.lower) [])
]

-- `fault.includes(code)`
unfoldable pub includes : String → List String → Bool
includes code [] = false
includes code (c ∷ cs) = str_eq c code || includes code cs

abbrev pub is_write : Method → Bool
is_write get_method = false
is_write post_method = true

-- What `fetch` throwing is taken for: a write may have been applied.
abbrev pub lost : Method → SyncError
lost get_method = network_failure
lost post_method = lost_write

abbrev pub read_body : Option Reply → Result (Option Reply)
read_body none = err not_json
read_body (some reply) = ok (some reply)

-- What an answer stands for, after the retry of a refused token: a body, null where the object is
-- not found, or an error.
unfoldable pub read_answer : (List ℕ → Option FaultJson) → Answer → Result (Option Reply)
unfolding parse_fault_codes includes
read_answer parse a =
    if is_ok_status a.status
    then read_body a.body
    else if a.status == 429 || leb 500 a.status
    then err service_busy
    else if includes "5010" (parse_fault_codes parse a.text)
    then err stale_token
    else if includes "610" (parse_fault_codes parse a.text)
    then ok none
    else err rejected

module _ {N : Type 0} (config : QboConfig) (out : Outside N) where
  abbrev pub sleep : ℕ → Action (Qbo N) Unit
  sleep ms = modify (λ w. record w { slept = w.slept + ms })

  unfoldable pub rate_limit : Action (Qbo N) Unit
  unfolding read_time recent
  rate_limit = do
    now ← read_time out
    modify (λ w. record w { request_timestamps = recent now w.request_timestamps })
    wait ← gets (λ w. wait_ms now w.request_timestamps)
    sleep wait
    later ← read_time out
    modify (λ w. record w { request_timestamps = w.request_timestamps ++ (later ∷ []) })

  abbrev pub fetched : Option Answer × N → Action (Qbo N) (Option Answer)
  fetched (answer, net) w = (ok answer, record w { net = net })

  -- `fetch`
  unfoldable pub send : Request → Action (Qbo N) (Option Answer)
  send request w = fetched (out.send request w.net) w

  -- One request, up to the answer.
  unfoldable pub send_once : Method → List ℕ → Option Body → Action (Qbo N) Answer
  unfolding rate_limit get_realm_id get_access_token request_url send
  send_once method path body = do
    rate_limit
    realm_id ← get_realm_id config out
    token ← get_access_token config out
    answer ← send (record {
      method = method;
      url = request_url config realm_id path;
      token = token;
      body = body;
    })
    or_raise (lost method) answer

  abbrev pub read_once : Answer → Action (Qbo N) (Option Reply)
  read_once a w = (read_answer out.parse_fault a, w)

  -- The second request, with a new token.
  abbrev pub retry_authorized : Method → List ℕ → Option Body → Action (Qbo N) (Option Reply)
  retry_authorized method path body = do
    force_refresh config out
    again ← send_once method path body
    read_once again

  unfoldable pub request : Method → List ℕ → Option Body → Action (Qbo N) (Option Reply)
  unfolding send_once read_answer force_refresh
  request method path body = do
    answer ← send_once method path body
    (if answer.status == 401 then retry_authorized method path body else read_once answer)

  unfoldable pub get : List ℕ → Action (Qbo N) (Option Reply)
  unfolding request
  get path = request get_method path none

  abbrev pub empty_response : QueryResponse
  empty_response = record { invoices = none; payments = none; customers = none; items = none }

  abbrev pub response_of : Option Reply → QueryResponse
  response_of none = empty_response
  response_of (some r) = or_else r.query_response empty_response

  unfoldable pub query : List ℕ → Action (Qbo N) QueryResponse
  unfolding request
  query text = do
    result ← request get_method (codes "/query?query=" ++ encode_uri_component text) none
    pure (response_of result)

  unfoldable pub post : List ℕ → Body → Action (Qbo N) Reply
  unfolding request
  post path body = do result ← request post_method path (some body); or_raise empty_result result
