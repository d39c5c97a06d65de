-- ===== src/QuickBooks/Auth.antt =====
-- src/providers/quickbooks/qboAuth.ts: the OAuth tokens. Calls follow one another here, so that
-- `refreshInFlight` is null whenever a refresh begins.
pub mod Callback
pub mod Access
pub mod Failures
use qbo_invoice_sync.Common.{
  ℕ, ◌+◌, ◌*◌, Bool, true, false, ◌&&◌, Option, none, some, List, [], ◌∷◌, ◌++◌, codes, String,
  str_eq, ltb, leb, if◌then◌else◌,
}
use qbo_invoice_sync.Errors.{
  SyncError, plain_error, transient_provider_error, permanent_provider_error, Result, ok, err,
}
use qbo_invoice_sync.Action.{Action, pure, raise, gets, modify, or_raise, ◌>>=◌, ◌>>◌}
use qbo_invoice_sync.Urls.{form_text}
use qbo_invoice_sync.Tokens
use qbo_invoice_sync.Tokens.{ProviderTokens, get_tokens}
use qbo_invoice_sync.QuickBooks.{
  QboConfig, TokenResponse, Grant, authorization_code, refresh_token, TokenRequest, TokenAnswer,
  Outside, Qbo, read_time,
}

abbrev pub unknown_state : SyncError
unknown_state = record {
  kind = permanent_provider_error;
  message = "OAuth callback with unknown state (possible CSRF)";
}

abbrev pub unreachable : SyncError
unreachable = record { kind = transient_provider_error; message = "QBO token endpoint unreachable" }

abbrev pub endpoint_failed : SyncError
endpoint_failed = record { kind = transient_provider_error; message = "QBO token endpoint failed" }

abbrev pub request_rejected : SyncError
request_rejected = record {
  kind = permanent_provider_error;
  message = "QBO token request rejected";
}

abbrev pub not_connected : SyncError
not_connected = record {
  kind = permanent_provider_error;
  message = "QuickBooks is not connected: visit /qbo/connect to authorize";
}

-- `res.json()` throws a SyntaxError.
abbrev pub not_json : SyncError
not_json = record { kind = plain_error; message = "invalid JSON" }

-- `res.ok`
abbrev pub is_ok_status : ℕ → Bool
is_ok_status status = leb 200 status && leb status 299

unfoldable pub has_state : String → List String → Bool
has_state s [] = false
has_state s (x ∷ xs) = if str_eq x s then true else has_state s xs

-- `pendingStates.add`
abbrev pub add_state : String → List String → List String
add_state s xs = if has_state s xs then xs else xs ++ (s ∷ [])

-- The set without a state; `pendingStates.delete`, which says whether it was there.
unfoldable pub drop_state : String → List String → List String
drop_state s [] = []
drop_state s (x ∷ xs) = if str_eq x s then drop_state s xs else x ∷ drop_state s xs

abbrev pub read_tokens : Option TokenResponse → Result TokenResponse
read_tokens none = err not_json
read_tokens (some parsed) = ok parsed

-- What is made of the endpoint's answer.
unfoldable pub read_token_answer : Option TokenAnswer → Result TokenResponse
read_token_answer none = err unreachable
read_token_answer (some a) =
    if is_ok_status a.status
    then read_tokens a.body
    else if leb 500 a.status
    then err endpoint_failed
    else err request_rejected

module _ {N : Type 0} (config : QboConfig) (out : Outside N) where
  abbrev pub authorize_fields : String → List (List ℕ × List ℕ)
  authorize_fields state =
      (codes "client_id", codes config.client_id)
      ∷ (codes "response_type", codes "code")
      ∷ (codes "scope", codes "com.intuit.quickbooks.accounting")
      ∷ (codes "redirect_uri", codes config.redirect_uri)
      ∷ (codes "state", codes state)
      ∷ []

  -- `randomBytes(16).toString("hex")`
  abbrev pub draw_state : Action (Qbo N) String
  draw_state w = (ok (out.random_hex w.readings), record w { readings = w.readings + 1 })

  unfoldable pub build_authorize_url : Action (Qbo N) (List ℕ)
  unfolding has_state
  build_authorize_url = do
    state ← draw_state
    modify (λ w. record w { pending_states = add_state state w.pending_states })
    pure (
        codes "https://appcenter.intuit.com/connect/oauth2"
        ++ (b'?' ∷ form_text (authorize_fields state)))

  unfoldable pub token_request : Grant → Action (Qbo N) TokenResponse
  unfolding read_token_answer
  token_request grant w =
      let (answer, net) =
        out.ask_token
          (record {
            client_id = config.client_id;
            client_secret = config.client_secret;
            grant = grant;
          })
          w.net in
      (read_token_answer answer, record w { net = net })

  abbrev pub tokens_from : ℕ → TokenResponse → String → ProviderTokens
  tokens_from now parsed realm_id = record {
    provider = "quickbooks";
    realm_id = realm_id;
    access_token = parsed.access_token;
    refresh_token = parsed.refresh_token;
    access_token_expires_at = now + parsed.expires_in * 1000;
    refresh_token_expires_at = now + parsed.x_refresh_token_expires_in * 1000;
  }

  unfoldable pub save_tokens : TokenResponse → String → Action (Qbo N) ProviderTokens
  unfolding read_time
  save_tokens parsed realm_id = do
    now ← read_time out
    modify (λ w. record w {
      tokens = Tokens.save_tokens now (tokens_from now parsed realm_id) w.tokens;
    })
    pure (tokens_from now parsed realm_id)

  unfoldable pub require_tokens : Action (Qbo N) ProviderTokens
  require_tokens = do
    stored ← gets (λ w. get_tokens "quickbooks" w.tokens)
    or_raise not_connected stored

  unfoldable pub refresh : ProviderTokens → Action (Qbo N) ProviderTokens
  unfolding token_request save_tokens
  refresh stored = do
    parsed ← token_request (refresh_token stored.refresh_token)
    save_tokens parsed stored.realm_id

  -- `pendingStates.delete(state)`, or the exception
  abbrev pub take_state : String → Action (Qbo N) Unit
  take_state state w =
      if has_state state w.pending_states
      then (ok tt, record w { pending_states = drop_state state w.pending_states })
      else (err unknown_state, w)

  -- The exchange of an authorization code for tokens.
  abbrev pub exchange : (code realm_id : String) → Action (Qbo N) Unit
  exchange code realm_id = do
    parsed ← token_request (authorization_code code config.redirect_uri)
    save_tokens parsed realm_id
    pure tt

  unfoldable pub handle_callback : (code realm_id state : String) → Action (Qbo N) Unit
  unfolding token_request save_tokens
  handle_callback code realm_id state = do take_state state; exchange code realm_id

  unfoldable pub get_realm_id : Action (Qbo N) String
  unfolding require_tokens
  get_realm_id = do stored ← require_tokens; pure stored.realm_id

  abbrev pub refreshed_token : ProviderTokens → Action (Qbo N) String
  refreshed_token stored = do tokens ← refresh stored; pure tokens.access_token

  -- The stored token where it lives for more than three minutes, or a new one.
  unfoldable pub get_access_token : Action (Qbo N) String
  unfolding require_tokens refresh read_time
  get_access_token = do
    stored ← require_tokens
    now ← read_time out
    (if ltb (now + 180000) stored.access_token_expires_at
        then pure stored.access_token
        else refreshed_token stored)

  unfoldable pub force_refresh : Action (Qbo N) String
  unfolding require_tokens refresh
  force_refresh = do stored ← require_tokens; refreshed_token stored
