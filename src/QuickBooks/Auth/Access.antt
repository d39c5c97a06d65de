-- ===== src/QuickBooks/Auth/Access.antt =====
-- `getAccessToken` of src/providers/quickbooks/qboAuth.ts.
use qbo_invoice_sync.Common.{
  ℕ, ◌+◌, ◌<◌, ◌≡◌, refl, sym, ap, subst, ◌∙◌, inl, inr, Bool-cases, some, String, ltb, arith,
  if◌then◌else◌,
}
use qbo_invoice_sync.Errors.{ok}
use qbo_invoice_sync.Action.{>>=-ok, ◌>>=◌, pure, pure-ok, or_raise-ok}
use qbo_invoice_sync.Tokens.{ProviderTokens, get_tokens, get-save_tokens}
use qbo_invoice_sync.QuickBooks.{
  QboConfig, TokenResponse, refresh_token, Outside, Qbo, time_of, read_time,
}
use qbo_invoice_sync.QuickBooks.Auth.{
  read_token_answer, token_request, tokens_from, save_tokens, require_tokens, refresh,
  refreshed_token, get_access_token, not_connected,
}

module _ {N : Type 0} (config : QboConfig) (out : Outside N) where
  -- The tokens in the table after the call, where the token comes from: from the table, with more
  -- than three minutes to live, or from the endpoint, which was asked with the stored refresh token
  -- and whose answer was saved for the same realm.
  pub data Source (w v : Qbo N) (stored : ProviderTokens) : Type 0 where
    stored_already :
        get_tokens "quickbooks" w.tokens ≡ some stored
        → time_of out w + 180000 < stored.access_token_expires_at
        → Source w v stored
    just_issued :
        (old : ProviderTokens) (parsed : TokenResponse) (now : ℕ)
        → get_tokens "quickbooks" w.tokens ≡ some old
        → read_token_answer
            (out.ask_token
              (record {
                client_id = config.client_id;
                client_secret = config.client_secret;
                grant = refresh_token old.refresh_token;
              })
              w.net).0
          ≡ ok parsed
        → stored ≡ tokens_from config out now parsed old.realm_id
        → Source w v stored

  pub require_tokens-ok :
      (w v : Qbo N) (stored : ProviderTokens)
      → require_tokens config out w ≡ (ok stored, v)
      → (get_tokens "quickbooks" w.tokens ≡ some stored) × (w ≡ v)
  unfolding require_tokens ◌>>=◌
  require_tokens-ok w v stored e = or_raise-ok not_connected (get_tokens "quickbooks" w.tokens) w e

  saved-ok :
      (parsed : TokenResponse) (realm_id : String) (u : Qbo N) (tokens : ProviderTokens) (v : Qbo N)
      → save_tokens config out parsed realm_id u ≡ (ok tokens, v)
      → let new = tokens_from config out (time_of out u) parsed realm_id in
        (new ≡ tokens) × (get_tokens "quickbooks" v.tokens ≡ some new)
  unfolding save_tokens ◌>>=◌ read_time
  saved-ok parsed realm_id u tokens v e =
      let new = tokens_from config out (time_of out u) parsed realm_id in
      let (same, end) = pure-ok new _ e in
      (
        same,
        ap (λ x. get_tokens "quickbooks" x.tokens) (sym end)
            ∙ get-save_tokens (time_of out u) new u.tokens,
      )

  refreshed_token-ok :
      (old : ProviderTokens) (w v : Qbo N) (token : String)
      → refreshed_token config out old w ≡ (ok token, v)
      → (parsed : TokenResponse) × (now : ℕ) × (read_token_answer
            (out.ask_token
              (record {
                client_id = config.client_id;
                client_secret = config.client_secret;
                grant = refresh_token old.refresh_token;
              })
              w.net).0
          ≡ ok parsed)
        × (token ≡ parsed.access_token)
        × (get_tokens "quickbooks" v.tokens ≡ some (tokens_from config out now parsed old.realm_id))
  unfolding refresh token_request save_tokens
  refreshed_token-ok old w v token e =
      let (tokens, u, p, q) = >>=-ok (refresh config out old) _ w e in
      let (parsed, u1, p1, q1) =
        >>=-ok (token_request config out (refresh_token old.refresh_token)) _ w p in
      let now = time_of out u1 in
      let (saved, table) = saved-ok parsed old.realm_id u1 tokens u q1 in
      let (same, end) = pure-ok tokens.access_token u q in
      (
        parsed,
        now,
        ap (λ x. x.0) p1,
        sym same ∙ ap (λ x. x.access_token) (sym saved),
        ap (λ x. get_tokens "quickbooks" x.tokens) (sym end) ∙ table,
      )

  pub read_time-ok :
      (w : Qbo N) (now : ℕ) (v : Qbo N)
      → read_time out w ≡ (ok now, v)
      → (time_of out w ≡ now) × (record w { readings = w.readings + 1 } ≡ v)
  unfolding read_time
  read_time-ok w now v e = pure-ok (time_of out w) _ e

  chosen-Source :
      (w u v : Qbo N) (now : ℕ) (stored : ProviderTokens) (token : String)
      → now ≡ time_of out w
      → get_tokens "quickbooks" w.tokens ≡ some stored
      → u.tokens ≡ w.tokens
      → u.net ≡ w.net
      → (if ltb (now + 180000) stored.access_token_expires_at
            then pure stored.access_token
            else refreshed_token config out stored)
          u
        ≡ (ok token, v)
      → (s : ProviderTokens) × (get_tokens "quickbooks" v.tokens ≡ some s)
        × (s.access_token ≡ token)
        × Source w v s
  chosen-Source w u v now stored token at_now got same_table same_net e =
      elim (Bool-cases (ltb (now + 180000) stored.access_token_expires_at)) [
        | inl alive ↦
            let (same, end) = pure-ok stored.access_token u (rw alive at e) in
            (
              stored,
              ap (λ x. get_tokens "quickbooks" x.tokens) (sym end)
                  ∙ ap (get_tokens "quickbooks") same_table
                  ∙ got,
              same,
              stored_already got (ground arith),
            )
        | inr expiring ↦
            let (parsed, now, asked, same, table) =
              refreshed_token-ok stored u v token (rw expiring at e) in
            (
              tokens_from config out now parsed stored.realm_id,
              table,
              sym same,
              just_issued stored parsed now got
                  (subst
                    (λ n.
                      read_token_answer
                        (out.ask_token
                          (record {
                            client_id = config.client_id;
                            client_secret = config.client_secret;
                            grant = refresh_token stored.refresh_token;
                          })
                          n).0
                      ≡ ok parsed)
                    same_net asked)
                  refl,
            )
      ]

-- The access token that the program gets is the one that the table holds for QuickBooks after the
-- call, and it either was there with more than three minutes to live or has just been issued for the
-- stored refresh token.
pub access_token_valid :
    {N : Type 0} (config : QboConfig) (out : Outside N) (w v : Qbo N) (token : String)
    → get_access_token config out w ≡ (ok token, v)
    → (s : ProviderTokens) × (get_tokens "quickbooks" v.tokens ≡ some s)
      × (s.access_token ≡ token)
      × Source config out w v s
unfolding get_access_token
access_token_valid config out w v token e =
    let (stored, u, p, q) = >>=-ok (require_tokens config out) _ w e in
    let (got, same) = require_tokens-ok config out w u stored p in
    let (now, u2, p2, q2) = >>=-ok (read_time out) _ u q in
    let (at_now, end) = read_time-ok config out u now u2 p2 in
    chosen-Source config out w u2 v now stored token (sym at_now ∙ ap (time_of out) (sym same)) got
      (ap (λ x. x.tokens) (sym end) ∙ ap (λ x. x.tokens) (sym same))
      (ap (λ x. x.net) (sym end) ∙ ap (λ x. x.net) (sym same)) q2
