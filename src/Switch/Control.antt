-- ===== src/Switch/Control.antt =====
-- handleControl of deploy/webhook-switch/server.mjs, and the choice between it and a delivery.
use Prim.Native.Char.{code}
use qbo_invoice_sync.Common.{
  ℕ, Bool, true, false, ◌&&◌, ◌||◌, Option, none, some, List, [], ◌∷◌, String, str_eq, codes, ◌==◌,
  if◌then◌else◌,
}
use qbo_invoice_sync.Json.{Json, undefined, null, str, obj, end}
use qbo_invoice_sync.Controllers.{property}
use qbo_invoice_sync.Texts.{is_prefix}
use qbo_invoice_sync.Switch.{
  Mode, local_mode, forward_mode, both_mode, mode_of, Settings, SwitchState, Entry, Incoming, Url,
  property_of, state_json, is_authorized, read_body, trim_slashes,
}
use qbo_invoice_sync.Switch.Deliveries.{Switch, Started, handle_webhook}

-- `statusPayload`
pub record Status : Type 0 where
  pub mode : Mode
  pub target : Option String
  pub app_url : String
  pub updated_at : Json
  pub deliveries : List Entry

pub data ControlReply : Type 0 where
  healthy login_page control_page : ControlReply
  status : Status → ControlReply
  problem : (code : ℕ) → String → ControlReply

-- `text || null`
abbrev pub given_text : String → Option String
given_text text = if str_eq text "" then none else some text

abbrev pub status_payload : Settings → Switch → Status
status_payload settings w = record {
  mode = w.state.mode;
  target = given_text w.state.target;
  app_url = settings.primary_url;
  updated_at = w.state.updated_at;
  deliveries = w.deliveries;
}

abbrev bad_target : String
bad_target = "target must be an absolute http(s) url"

-- A change of the state, or the message that refuses it.
pub data Change : Type 0 where
  changed : SwitchState → Change
  invalid : String → Change

abbrev pub mode_change : SwitchState → Option Json → Change
mode_change s none = changed s
mode_change s (some undefined) = changed s
mode_change s v = elim (mode_of v) [
  | none ↦ invalid "mode must be one of local, forward, both"
  | some m ↦ changed (record s { mode = m })
]

abbrev url_change : SwitchState → Option Url → Change
unfolding trim_slashes
url_change s none = invalid bad_target
url_change s (some url) =
    if str_eq url.protocol "http:" || str_eq url.protocol "https:"
    then changed (record s { target = trim_slashes url.href })
    else invalid bad_target

abbrev pub needs_target : Mode → Bool
needs_target local_mode = false
needs_target forward_mode = true
needs_target both_mode = true

abbrev pub and_then : Change → (SwitchState → Change) → Change
and_then (changed s) f = f s
and_then (invalid message) f = invalid message

abbrev pub complete : SwitchState → Change
complete s =
    if needs_target s.mode && str_eq s.target ""
    then invalid "mode needs a target url"
    else changed s

-- `text_of` is `String(value)`.
module _ (parse_url : String → Option Url) (text_of : Json → String) where
  abbrev pub target_change : SwitchState → Option Json → Change
  unfolding trim_slashes
  target_change s none = changed s
  target_change s (some undefined) = changed s
  target_change s (some null) = changed (record s { target = "" })
  target_change s (some (str text)) =
      if str_eq text "" then changed (record s { target = "" }) else url_change s (parse_url text)
  target_change s (some v) = url_change s (parse_url (text_of v))

  unfoldable pub next_state : SwitchState → Json → Change
  unfolding property trim_slashes
  next_state s parsed =
      and_then
        (and_then (mode_change s (property_of "mode" parsed))
          (λ t. target_change t (property_of "target" parsed)))
        complete

-- `url.split("?")[0]`
unfoldable pub path_of : String → String
path_of String.[] = String.[]
path_of (String.◌∷◌ c s) =
    let rest = path_of s in if code c == b'?' then String.[] else String.◌∷◌ c rest

unfoldable pub is_control : String → Bool
is_control path = str_eq path "/_switch" || is_prefix (codes "/_switch/") (codes path)

-- What a request gets: an answer at once, or a delivery on its way.
pub data Served : Type 0 where
  controlled : ControlReply → Served
  delivered : Started → Served

module _ (settings : Settings) (parse_json : List ℕ → Option Json) (parse_url : String → Option Url)
    (text_of : Json → String) where
  -- The new state is kept whether or not the disk takes it.
  abbrev pub commit : (at : String) (written : Bool) → Change → Switch → ControlReply × Switch
  commit at written (invalid message) w = (problem 400 message, w)
  commit at written (changed s) w =
      let next = record s { updated_at = str at } in
      let u = record w {
        state = next;
        file = if written then some (state_json next) else w.file;
      } in
      (status (status_payload settings u), u)

  -- A body that is null has no properties, and the exception is answered with 500.
  unfoldable pub apply_body :
      (at : String) (written : Bool) → Option Json → Switch → ControlReply × Switch
  unfolding next_state
  apply_body at written none w = (problem 400 "invalid json body", w)
  apply_body at written (some null) w =
      (problem 500 "Cannot read properties of null (reading 'mode')", w)
  apply_body at written (some parsed) w =
      commit at written (next_state parse_url text_of w.state parsed) w

  abbrev pub parsed_body : Option (List ℕ) → Option Json
  parsed_body none = none
  parsed_body (some []) = some (obj end)
  parsed_body (some (c ∷ raw)) = parse_json (c ∷ raw)

  unfoldable pub handle_control :
      (at : String) (written : Bool) → Incoming → (path : String) → Switch → ControlReply × Switch
  unfolding is_authorized read_body next_state apply_body
  handle_control at written req path w =
      if str_eq path "/_switch/health"
      then (healthy, w)
      else if is_authorized settings req
      then (if str_eq req.method "GET" && str_eq path "/_switch"
          then (control_page, w)
          else if str_eq req.method "GET" && str_eq path "/_switch/status"
          then (status (status_payload settings w), w)
          else if str_eq req.method "POST"
              && (str_eq path "/_switch" || str_eq path "/_switch/status")
          then apply_body at written (parsed_body (read_body settings req)) w
          else (problem 405 "method not allowed", w))
      else if str_eq req.method "GET" && str_eq path "/_switch"
      then (login_page, w)
      else (problem 401 "unauthorized", w)

  abbrev control_served : ControlReply × Switch → Served × Switch
  control_served (reply, u) = (controlled reply, u)

  abbrev delivery_served : Started × Switch → Served × Switch
  delivery_served (started, u) = (delivered started, u)

  -- The server's handler of a request
  unfoldable pub serve : (at : String) (written : Bool) → Incoming → Switch → Served × Switch
  unfolding path_of is_control handle_control handle_webhook
  serve at written req w =
      if is_control (path_of req.url)
      then control_served (handle_control at written req (path_of req.url) w)
      else delivery_served (handle_webhook settings parse_url at req w)
