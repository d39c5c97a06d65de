-- ===== src/Tokens.antt =====
-- The OAuth tokens of a provider: the table `provider_tokens` behind
-- src/models/repositories/providerTokenRepository.ts. Instants are milliseconds.
use qbo_invoice_sync.Common.{
  ℕ, ◌≡◌, Option, none, some, List, [], ◌∷◌, String, str_eq, str_eq_refl, if◌then◌else◌, Bool-cases,
  inl, inr,
}

pub record ProviderTokens : Type 0 where
  pub provider : String
  pub realm_id : String
  pub access_token : String
  pub refresh_token : String
  pub access_token_expires_at : ℕ
  pub refresh_token_expires_at : ℕ

-- A row of the table. `updated_at` is written and never read.
pub record TokenRow : Type 0 where
  pub tokens : ProviderTokens
  pub updated_at : ℕ

unfoldable pub get_tokens : String → List TokenRow → Option ProviderTokens
get_tokens provider [] = none
get_tokens provider (r ∷ rs) =
    if str_eq r.tokens.provider provider then some r.tokens else get_tokens provider rs

-- `INSERT … ON CONFLICT (provider) DO UPDATE`, at `now` of the program's clock
unfoldable pub save_tokens : ℕ → ProviderTokens → List TokenRow → List TokenRow
save_tokens now tokens [] = record { tokens = tokens; updated_at = now } ∷ []
save_tokens now tokens (r ∷ rs) =
    if str_eq r.tokens.provider tokens.provider
    then record { tokens = tokens; updated_at = now } ∷ rs
    else r ∷ save_tokens now tokens rs

-- What was saved for a provider is what is read of it.
pub get-save_tokens :
    (now : ℕ) (t : ProviderTokens) (rs : List TokenRow)
    → get_tokens t.provider (save_tokens now t rs) ≡ some t
unfolding get_tokens save_tokens
get-save_tokens now t [] = rw (str_eq_refl t.provider)
get-save_tokens now t (r ∷ rs) = elim (Bool-cases (str_eq r.tokens.provider t.provider)) [
  | inl same ↦ rw same (rw (str_eq_refl t.provider))
  | inr other ↦ rw other (rw other (get-save_tokens now t rs))
]
