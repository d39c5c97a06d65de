-- ===== src/QuickBooks/Auth/Callback.antt =====
-- `handleCallback` of src/providers/quickbooks/qboAuth.ts takes each state once.
use qbo_invoice_sync.Common.{
  ◌≡◌, refl, sym, ap, ◌∙◌, true, false, inl, inr, Bool-cases, List, [], ◌∷◌, String, str_eq,
}
use qbo_invoice_sync.Errors.{Result, err}
use qbo_invoice_sync.Action.{Keeps, >>=-Keeps, ◌>>=◌}
use qbo_invoice_sync.QuickBooks.{
  QboConfig, TokenResponse, Grant, authorization_code, Outside, Qbo, read_time,
}
use qbo_invoice_sync.QuickBooks.Auth.{
  unknown_state, has_state, drop_state, token_request, save_tokens, exchange, handle_callback,
}

has_state-drop_state : (s : String) (xs : List String) → has_state s (drop_state s xs) ≡ false
unfolding has_state drop_state
has_state-drop_state s [] = refl
has_state-drop_state s (x ∷ xs) = elim (Bool-cases (str_eq x s)) [
  | inl same ↦ rw same (has_state-drop_state s xs)
  | inr other ↦ rw other (rw other (has_state-drop_state s xs))
]

module _ {N : Type 0} (config : QboConfig) (out : Outside N) where
  token_request-Keeps :
      (grant : Grant) → Keeps (λ (w : Qbo N). w.pending_states) (token_request config out grant)
  unfolding token_request
  token_request-Keeps grant w = refl

  save_tokens-Keeps :
      (parsed : TokenResponse) (realm_id : String)
      → Keeps (λ (w : Qbo N). w.pending_states) (save_tokens config out parsed realm_id)
  unfolding save_tokens ◌>>=◌ read_time
  save_tokens-Keeps parsed realm_id w = refl

  exchange-Keeps :
      (code realm_id : String)
      → Keeps (λ (w : Qbo N). w.pending_states) (exchange config out code realm_id)
  exchange-Keeps code realm_id =
      >>=-Keeps (λ (w : Qbo N). w.pending_states) _ _
        (token_request-Keeps (authorization_code code config.redirect_uri))
        (λ parsed.
          >>=-Keeps (λ (w : Qbo N). w.pending_states) _ _ (save_tokens-Keeps parsed realm_id)
            (λ _ w. refl))

  unknown-state :
      (code realm_id state : String) (w : Qbo N)
      → has_state state w.pending_states ≡ false
      → handle_callback config out code realm_id state w ≡ (err unknown_state, w)
  unfolding handle_callback ◌>>=◌
  unknown-state code realm_id state w h = rw h

  known-state :
      (code realm_id state : String) (w : Qbo N)
      → has_state state w.pending_states ≡ true
      → (handle_callback config out code realm_id state w).1.pending_states
        ≡ drop_state state w.pending_states
  unfolding handle_callback
  known-state code realm_id state w h =
      unfold ◌>>=◌ in
      rw h (
        exchange-Keeps code realm_id
          (record w { pending_states = drop_state state w.pending_states }))

-- Whatever became of a callback, one more with its state is refused as unknown, before the token
-- endpoint is asked: nothing changes.
pub callback_once :
    {N : Type 0} (config : QboConfig) (out : Outside N) (code realm_id state : String) (w v : Qbo N)
    (r : Result Unit) (next_code next_realm : String)
    → handle_callback config out code realm_id state w ≡ (r, v)
    → handle_callback config out next_code next_realm state v ≡ (err unknown_state, v)
callback_once config out code realm_id state w v r next_code next_realm e =
    elim (Bool-cases (has_state state w.pending_states)) [
      | inl known ↦ unknown-state config out next_code next_realm state v (
          ap (has_state state) (
            ap (λ x. x.1.pending_states) (sym e)
            ∙ known-state config out code realm_id state w known)
          ∙ has_state-drop_state state w.pending_states)
      | inr fresh ↦ unknown-state config out next_code next_realm state v (
          ap (λ x. has_state state x.1.pending_states)
            (sym e ∙ unknown-state config out code realm_id state w fresh)
          ∙ fresh)
    ]
