-- ===== src/Errors.antt =====
-- The exceptions that cross component borders (src/providers/errors.ts), and results as values.
use qbo_invoice_sync.Common.{Bool, true, false, String}

-- The class of an exception: `Error` itself, and the provider's error classes.
pub data ErrorClass : Type 0 where
  plain_error transient_provider_error permanent_provider_error stale_version_error
        ambiguous_write_error :
      ErrorClass

pub record SyncError : Type 0 where
  pub kind : ErrorClass
  pub message : String

-- `err instanceof PermanentProviderError`
abbrev pub is_permanent : ErrorClass → Bool
is_permanent permanent_provider_error = true
is_permanent _ = false

-- `err instanceof StaleVersionError`
abbrev pub is_stale : ErrorClass → Bool
is_stale stale_version_error = true
is_stale _ = false

-- `err.name`
abbrev pub error_name : ErrorClass → String
error_name plain_error = "Error"
error_name transient_provider_error = "TransientProviderError"
error_name permanent_provider_error = "PermanentProviderError"
error_name stale_version_error = "StaleVersionError"
error_name ambiguous_write_error = "AmbiguousWriteError"

pub data Result {ℓ} (A : Type ℓ) : Type ℓ where
  ok : A → Result A
  err : SyncError → Result A
