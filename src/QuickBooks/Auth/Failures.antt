-- ===== src/QuickBooks/Auth/Failures.antt =====
-- When src/providers/quickbooks/qboAuth.ts cannot give a token.
use qbo_invoice_sync.Common.{
  ◌+◌, ◌≤◌, ◌<◌, ◌⊎◌, ◌≡◌, refl, sym, ap, subst, ◌∙◌, inl, inr, Bool-cases, Option, none, some,
  String, ltb, leb, arith, true,
}
use qbo_invoice_sync.Errors.{
  SyncError, plain_error, transient_provider_error, permanent_provider_error, Result, ok, err,
}
use qbo_invoice_sync.Action.{or_raise, >>=-cases, >>=-ok, pure-ok, ◌>>=◌}
use qbo_invoice_sync.Tokens.{ProviderTokens, get_tokens}
use qbo_invoice_sync.QuickBooks.{
  QboConfig, TokenRequest, TokenAnswer, TokenResponse, refresh_token, Outside, Qbo, read_time,
}
use qbo_invoice_sync.QuickBooks.Auth.{
  is_ok_status, read_tokens, read_token_answer, token_request, save_tokens, require_tokens, refresh,
  refreshed_token, get_realm_id, get_access_token, force_refresh, not_connected, not_json,
  unreachable, endpoint_failed, request_rejected,
}
use qbo_invoice_sync.QuickBooks.Auth.Access.{require_tokens-ok, read_time-ok}

-- What an answer of the token endpoint, or a missing one, is reported as.
pub data TokenReported : Option TokenAnswer → SyncError → Type 0 where
  unreached : (e : SyncError) → e.kind ≡ transient_provider_error → TokenReported none e
  failing :
      (a : TokenAnswer) (e : SyncError)
      → 500 ≤ a.status
      → e.kind ≡ transient_provider_error
      → TokenReported (some a) e
  turned_down :
      (a : TokenAnswer) (e : SyncError)
      → (a.status < 200) ⊎ (299 < a.status)
      → a.status < 500
      → e.kind ≡ permanent_provider_error
      → TokenReported (some a) e
  garbled :
      (a : TokenAnswer) (e : SyncError)
      → 200 ≤ a.status
      → a.status ≤ 299
      → a.body ≡ none
      → e.kind ≡ plain_error
      → TokenReported (some a) e

raised : {A : Type 0} (x e : SyncError) → ◌≡◌ {A = Result A} (err x) (err e) → x ≡ e
raised x e h = cc

read_tokens-Reported :
    (a : TokenAnswer) (b : Option TokenResponse) (e : SyncError)
    → a.body ≡ b
    → is_ok_status a.status ≡ true
    → read_tokens b ≡ err e
    → TokenReported (some a) e
read_tokens-Reported a none e there fine h =
    garbled a e (ground arith) (ground arith) there (ap (λ x. x.kind) (sym (raised not_json e h)))
read_tokens-Reported a (some parsed) e there fine h = cc

read_token_answer-Reported :
    (a : Option TokenAnswer) (e : SyncError) → read_token_answer a ≡ err e → TokenReported a e
unfolding read_token_answer
read_token_answer-Reported none e h = unreached e (ap (λ x. x.kind) (sym (raised unreachable e h)))
read_token_answer-Reported (some a) e h = elim (Bool-cases (is_ok_status a.status)) [
  | inl fine ↦ read_tokens-Reported a a.body e refl fine (rw fine at h)
  | inr bad ↦ elim (Bool-cases (leb 500 a.status)) [
    | inl broken ↦
        failing a e (ground arith)
          (ap (λ x. x.kind) (sym (raised endpoint_failed e (rw (bad, broken) at h))))
    | inr refusing ↦
        turned_down a e
          (elim (Bool-cases (leb 200 a.status)) [
            | inl above ↦ inr (ground arith)
            | inr below ↦ inl (ground arith)
          ])
          (ground arith)
          (ap (λ x. x.kind) (sym (raised request_rejected e (rw (bad, refusing) at h))))
  ]
]

module _ {N : Type 0} (config : QboConfig) (out : Outside N) where
  abbrev renewal : ProviderTokens → TokenRequest
  renewal stored = record {
    client_id = config.client_id;
    client_secret = config.client_secret;
    grant = refresh_token stored.refresh_token;
  }

  -- No token can be had in a state: the table has none, or the endpoint was asked to renew the stored
  -- ones and gave none.
  pub data NoToken (w : Qbo N) (e : SyncError) : Type 0 where
    disconnected :
        get_tokens "quickbooks" w.tokens ≡ none → e.kind ≡ permanent_provider_error → NoToken w e
    ungranted :
        (stored : ProviderTokens)
        → get_tokens "quickbooks" w.tokens ≡ some stored
        → TokenReported (out.ask_token (renewal stored) w.net).0 e
        → NoToken w e

  pub NoToken-same :
      (w u : Qbo N) (e : SyncError)
      → u.tokens ≡ w.tokens
      → u.net ≡ w.net
      → NoToken u e
      → NoToken w e
  NoToken-same w u e t n (disconnected missing k) =
      disconnected (ap (get_tokens "quickbooks") (sym t) ∙ missing) k
  NoToken-same w u e t n (ungranted stored there r) =
      ungranted stored (ap (get_tokens "quickbooks") (sym t) ∙ there)
        (subst (λ net. TokenReported (out.ask_token (renewal stored) net).0 e) n r)

  -- An action that fails for want of a token only.
  abbrev Fails : {A : Type 0} → Qbo N → Result A → Type 0
  Fails w r = (e : SyncError) → r ≡ err e → NoToken w e

  require_tokens-Fails : (w : Qbo N) → Fails w (require_tokens config out w).0
  unfolding require_tokens ◌>>=◌
  require_tokens-Fails w = go (get_tokens "quickbooks" w.tokens) refl
    where
      go :
          (o : Option ProviderTokens)
          → get_tokens "quickbooks" w.tokens ≡ o
          → Fails w (or_raise not_connected o w).0
      go none missing e h = disconnected missing (ap (λ x. x.kind) (sym (raised not_connected e h)))
      go (some stored) there e h = cc

  token_request-Fails :
      (w : Qbo N) (stored : ProviderTokens)
      → get_tokens "quickbooks" w.tokens ≡ some stored
      → Fails w (token_request config out (refresh_token stored.refresh_token) w).0
  unfolding token_request
  token_request-Fails w stored there e h = ungranted stored there (read_token_answer-Reported _ e h)

  save_tokens-succeeds :
      (parsed : TokenResponse) (realm_id : String) (u w : Qbo N)
      → Fails w (save_tokens config out parsed realm_id u).0
  unfolding save_tokens ◌>>=◌ read_time
  save_tokens-succeeds parsed realm_id u w e h = cc

  refreshed_token-Fails :
      (w : Qbo N) (stored : ProviderTokens)
      → get_tokens "quickbooks" w.tokens ≡ some stored
      → Fails w (refreshed_token config out stored w).0
  unfolding refresh
  refreshed_token-Fails w stored there =
      >>=-cases (Fails w) (refresh config out stored) _ w
        (λ e h x same.
          >>=-cases (Fails w) (token_request config out (refresh_token stored.refresh_token)) _ w
            (λ e1 h1 x1 same1.
              token_request-Fails w stored there x1 (h1 ∙ ap err (raised e1 x1 same1)))
            (λ parsed u p. save_tokens-succeeds parsed stored.realm_id u w) x
            (h ∙ ap err (raised e x same)))
        (λ tokens u p x same. cc)

  pub force_refresh-Fails : (w : Qbo N) → Fails w (force_refresh config out w).0
  unfolding force_refresh
  force_refresh-Fails w =
      >>=-cases (Fails w) (require_tokens config out) _ w
        (λ e h x same. require_tokens-Fails w x (h ∙ ap err (raised e x same)))
        (λ stored u p.
          let (got, same) = require_tokens-ok config out w u stored p in
          subst (λ v. Fails w (refreshed_token config out stored v).0) same
            (refreshed_token-Fails w stored got))

  pub get_access_token-Fails : (w : Qbo N) → Fails w (get_access_token config out w).0
  unfolding get_access_token
  get_access_token-Fails w =
      >>=-cases (Fails w) (require_tokens config out) _ w
        (λ e h x same. require_tokens-Fails w x (h ∙ ap err (raised e x same)))
        (λ stored u p.
          let (got, same) = require_tokens-ok config out w u stored p in
          >>=-cases (Fails w) (read_time out) _ u (λ e h. unfold read_time in absurd (cc))
            (λ now v p1.
              let (at, end) = read_time-ok config out u now v p1 in
              let tokens : v.tokens ≡ w.tokens =
                ap (λ x. x.tokens) (sym end) ∙ ap (λ x. x.tokens) (sym same) in
              let net : v.net ≡ w.net = ap (λ x. x.net) (sym end) ∙ ap (λ x. x.net) (sym same) in
              elim (Bool-cases (ltb (now + 180000) stored.access_token_expires_at)) [
                | inl alive ↦ rw alive (λ e h. absurd (cc))
                | inr expiring ↦ rw expiring (λ e h. NoToken-same w v e tokens net (
                    refreshed_token-Fails v stored (ap (get_tokens "quickbooks") tokens ∙ got) e h))
              ]))

  pub get_realm_id-Fails : (w : Qbo N) → Fails w (get_realm_id config out w).0
  unfolding get_realm_id
  get_realm_id-Fails w =
      >>=-cases (Fails w) (require_tokens config out) _ w
        (λ e h x same. require_tokens-Fails w x (h ∙ ap err (raised e x same)))
        (λ stored u p x same. cc)

  pub get_realm_id-ok :
      (w u : Qbo N) (realm_id : String)
      → get_realm_id config out w ≡ (ok realm_id, u)
      → (stored : ProviderTokens) × (get_tokens "quickbooks" w.tokens ≡ some stored)
        × (realm_id ≡ stored.realm_id)
        × (w ≡ u)
  unfolding get_realm_id
  get_realm_id-ok w u realm_id e =
      let (stored, v, p, q) = >>=-ok (require_tokens config out) _ w e in
      let (got, same) = require_tokens-ok config out w v stored p in
      let (as_id, end) = pure-ok stored.realm_id v q in (stored, got, sym as_id, same ∙ end)
