-- ===== src/Switch.antt =====
-- deploy/webhook-switch/server.mjs: the service that a deployment puts in front of the webhooks. Its
-- settings and state, what it reads at the start, its log, and who may control it. `JSON.parse`,
-- `new URL` and the clock are parameters; a text that arrives is a list of code points.
pub mod Headers
pub mod Control
pub mod Deliveries
pub mod Routing
pub mod Passing
pub mod Steps
mod Tests
use Prim.Native.Char.{Char, code}
use Prim.Native.String.{◌++◌ as text_append}
use qbo_invoice_sync.Common.{
  ℕ, zero, suc, ◌+◌, ◌-◌, Bool, true, false, not, ◌&&◌, Option, none, some, or_else, List, [], ◌∷◌,
  ◌++◌, String, str_eq, codes, text_eq, take, length, ltb, ◌==◌, if◌then◌else◌,
}
use qbo_invoice_sync.Json.{Json, undefined, null, str, obj, Fields, end, field}
use qbo_invoice_sync.Urls.{utf8}
use qbo_invoice_sync.Controllers.{property}

pub data Mode : Type 0 where
  local_mode forward_mode both_mode : Mode

abbrev pub mode_text : Mode → String
mode_text local_mode = "local"
mode_text forward_mode = "forward"
mode_text both_mode = "both"

-- `MODES.includes`
abbrev pub mode_of : Option Json → Option Mode
mode_of (some (str s)) =
    if str_eq s "local"
    then some local_mode
    else if str_eq s "forward"
    then some forward_mode
    else if str_eq s "both"
    then some both_mode
    else none
mode_of _ = none

-- What the process reads from its environment.
pub record Settings : Type 0 where
  pub mode : Option String
  pub target : Option String
  pub primary_url : String
  pub admin_token : List ℕ
  pub log_limit : ℕ
  pub max_body_bytes : ℕ

pub record SwitchState : Type 0 where
  pub mode : Mode
  pub target : String
  pub updated_at : Json

pub data Role : Type 0 where
  primary secondary : Role

pub record Entry : Type 0 where
  pub at : String
  pub method : String
  pub path : String
  pub mode : Mode
  pub role : Role
  pub destination : String
  pub status : Option ℕ
  pub error : Option String
  pub ms : ℕ

-- A request as it arrives, its body in the pieces that are read.
pub record Incoming : Type 0 where
  pub method : String
  pub url : String
  pub authorization : Option (List ℕ)
  pub switch_token : Option (List ℕ)
  pub host : Option String
  pub raw_headers : List String
  pub chunks : List (List ℕ)

-- A destination that `new URL` accepts.
pub record Url : Type 0 where
  pub protocol : String
  pub host : String
  pub href : String

-- `value ?? null`
abbrev pub or_null : Option Json → Json
or_null none = null
or_null (some undefined) = null
or_null (some v) = v

-- Reading a property throws at null, and is undefined at another value that is no object.
abbrev pub property_of : String → Json → Option Json
unfolding property
property_of name (obj fs) = property name fs
property_of name _ = none

abbrev pub mode_or : Option Mode → Mode → Mode
mode_or (some m) d = m
mode_or none d = d

abbrev pub text_or : Option Json → String → String
text_or (some (str s)) d = s
text_or _ d = d

abbrev fallback_mode : Option String → Option Mode
fallback_mode none = none
fallback_mode (some s) = mode_of (some (str s))

abbrev pub fallback : Settings → SwitchState
fallback settings = record {
  mode = mode_or (fallback_mode settings.mode) local_mode;
  target = or_else settings.target "";
  updated_at = null;
}

-- The file is none where it cannot be read or is no JSON.
unfoldable pub load_state : Settings → Option Json → SwitchState
unfolding property
load_state settings none = fallback settings
load_state settings (some null) = fallback settings
load_state settings (some parsed) = record {
  mode = mode_or (mode_of (property_of "mode" parsed)) (fallback settings).mode;
  target = text_or (property_of "target" parsed) (fallback settings).target;
  updated_at = or_null (property_of "updatedAt" parsed);
}

-- What `saveState` writes
abbrev pub state_json : SwitchState → Json
state_json s = obj (
    field "mode" (str (mode_text s.mode))
      (field "target" (str s.target) (field "updatedAt" s.updated_at end)))

-- `record`: the newest first, as many as the limit.
abbrev pub record_delivery : ℕ → Entry → List Entry → List Entry
record_delivery limit entry log = take limit (entry ∷ log)

abbrev pub drop : {A : Type 0} → ℕ → List A → List A
drop zero xs = xs
drop (suc n) [] = []
drop (suc n) (x ∷ xs) = drop n xs

abbrev lower_code : ℕ → ℕ
lower_code c = if ltb 64 c && ltb c 91 then c + 32 else c

abbrev lower_codes : List ℕ → List ℕ
lower_codes [] = []
lower_codes (c ∷ s) = lower_code c ∷ lower_codes s

-- `/^Bearer /i.test(header) ? header.slice(7) : ""`
abbrev pub bearer : Option (List ℕ) → List ℕ
unfolding text_eq
bearer none = []
bearer (some header) =
    if text_eq (lower_codes (take 7 header)) (codes "bearer ") then drop 7 header else []

-- `bearer || asString(token) || ""`
abbrev pub provided : List ℕ → Option (List ℕ) → List ℕ
provided (c ∷ s) token = c ∷ s
provided [] token = or_else token []

abbrev pub bytes_of : List ℕ → List ℕ
unfolding utf8
bytes_of [] = []
bytes_of (c ∷ s) = utf8 c ++ bytes_of s

-- The lengths and then the bytes are compared.
unfoldable pub is_authorized : Settings → Incoming → Bool
unfolding text_eq utf8
is_authorized settings req =
    text_eq (bytes_of (provided (bearer req.authorization) req.switch_token))
      (bytes_of settings.admin_token)

abbrev pub joined : List ℕ → Option (List ℕ) → Option (List ℕ)
joined chunk none = none
joined chunk (some more) = some (chunk ++ more)

-- The pieces of a body, unless they are more than the limit; `size` counts those that were read.
unfoldable pub read_chunks : (limit size : ℕ) → List (List ℕ) → Option (List ℕ)
read_chunks limit size [] = some []
read_chunks limit size (chunk ∷ chunks) =
    let rest = read_chunks limit (size + length chunk) chunks in
    if ltb limit (size + length chunk) then none else joined chunk rest

unfoldable pub read_body : Settings → Incoming → Option (List ℕ)
unfolding read_chunks
read_body settings req = read_chunks settings.max_body_bytes 0 req.chunks

abbrev pub joined_char : Char → String → String
joined_char c String.[] = if code c == b'/' then String.[] else String.◌∷◌ c String.[]
joined_char c (String.◌∷◌ d s) = String.◌∷◌ c (String.◌∷◌ d s)

-- `text.replace(/\/+$/, "")`
unfoldable pub trim_slashes : String → String
trim_slashes String.[] = String.[]
trim_slashes (String.◌∷◌ c s) = joined_char c (trim_slashes s)
