-- ===== src/Switch/Deliveries.antt =====
-- handleWebhook and forward of deploy/webhook-switch/server.mjs. What is sent to a destination is in
-- flight until it ends; the answer to the sender waits for the first destination up to a deadline.
use Prim.Native.String.{◌++◌ as text_append}
use qbo_invoice_sync.Common.{
  ℕ, Bool, true, false, ◌||◌, Option, none, some, List, [], ◌∷◌, ◌++◌, String, str_eq,
  if◌then◌else◌,
}
use qbo_invoice_sync.Json.{Json}
use qbo_invoice_sync.Switch.{
  Mode, local_mode, forward_mode, both_mode, Settings, SwitchState, Role, primary, secondary, Entry,
  Incoming, Url, record_delivery, read_body, trim_slashes,
}
use qbo_invoice_sync.Switch.Headers.{Header, outbound_headers}

-- A request that was sent to a destination, and the one that it forwards.
pub record Call : Type 0 where
  pub started_at : String
  pub mode : Mode
  pub role : Role
  pub origin : Incoming
  pub method : String
  pub url : Url
  pub headers : List Header
  pub body : List ℕ

-- The state of the process, the file of its state as the disk has it, and whether an exception that
-- nothing handles has stopped the process.
pub record Switch : Type 0 where
  pub state : SwitchState
  pub deliveries : List Entry
  pub in_flight : List Call
  pub file : Option Json
  pub crashed : Bool

-- How a call ends.
pub data Outcome : Type 0 where
  answered : (status : ℕ) → Outcome
  failed : (error : String) → Outcome

-- What has become of a delivery when its destinations have been called.
pub data Started : Type 0 where
  refused : Started
  unset : Mode → Started
  bad_url : Mode → Started
  thrown : Started
  sent_on : Mode → Call → Started

abbrev bad_destination : String
bad_destination = "invalid destination url"

abbrev pub entry_of :
    String → Mode → Role → Incoming → String → Option ℕ → Option String → ℕ → Entry
entry_of at mode role req destination status error ms = record {
  at = at;
  method = req.method;
  path = req.url;
  mode = mode;
  role = role;
  destination = destination;
  status = status;
  error = error;
  ms = ms;
}

abbrev pub logged : Settings → Entry → Switch → Switch
logged settings entry w = record w {
  deliveries = record_delivery settings.log_limit entry w.deliveries;
}

-- `destinationsFor`
abbrev pub destinations_for : Settings → SwitchState → Mode → String × String
destinations_for settings state local_mode = (settings.primary_url, "")
destinations_for settings state forward_mode = (state.target, "")
destinations_for settings state both_mode = (settings.primary_url, state.target)

abbrev pub is_http : Url → Bool
is_http url = str_eq url.protocol "http:" || str_eq url.protocol "https:"

-- Nobody awaits the second call: what it throws ends the process.
abbrev pub unawaited : Started × Switch → Switch
unawaited (thrown, u) = record u { crashed = true }
unawaited (_, u) = u

module _ (settings : Settings) (parse_url : String → Option Url) (at : String) where
  -- `client.request` throws at another protocol.
  unfoldable pub launch :
      (base : String) → Option Url → Role → Incoming → List ℕ → Mode → Switch → Started × Switch
  unfolding outbound_headers
  launch base none role req body mode w = (
    bad_url mode,
    logged settings (entry_of at mode role req base none (some bad_destination) 0) w,
  )
  launch base (some url) role req body mode w =
      let call : Call = record {
        started_at = at;
        mode = mode;
        role = role;
        origin = req;
        method = req.method;
        url = url;
        headers = outbound_headers req body url;
        body = body;
      } in
      if is_http url
      then (sent_on mode call, record w { in_flight = w.in_flight ++ (call ∷ []) })
      else (thrown, w)

  -- `forward`, up to the sending
  unfoldable pub forward :
      (base : String) → Role → Incoming → List ℕ → Mode → Switch → Started × Switch
  unfolding trim_slashes outbound_headers launch
  forward base role req body mode w =
      launch base (parse_url (text_append (trim_slashes base) req.url)) role req body mode w

  -- The second destination is called where there is one.
  unfoldable pub also : String → Incoming → List ℕ → Mode → Started × Switch → Started × Switch
  unfolding forward
  also base req body mode (started, w) =
      let more = forward base secondary req body mode w in
      if str_eq base "" then (started, w) else (started, unawaited more)

  unfoldable pub deliver : Incoming → Option (List ℕ) → Switch → Started × Switch
  unfolding forward also
  deliver req none w = (refused, w)
  deliver req (some body) w =
      let mode = w.state.mode in
      let (first, second) = destinations_for settings w.state mode in
      if str_eq first ""
      then (
        unset mode,
        logged settings
            (entry_of at mode primary req "(unset)" none (some "no target url configured") 0) w,
      )
      else also second req body mode (forward first primary req body mode w)

  -- `handleWebhook`, up to the answer
  unfoldable pub handle_webhook : Incoming → Switch → Started × Switch
  unfolding read_body deliver
  handle_webhook req w = deliver req (read_body settings req) w

abbrev status_of_outcome : Outcome → Option ℕ
status_of_outcome (answered status) = some status
status_of_outcome (failed error) = none

abbrev error_of_outcome : Outcome → Option String
error_of_outcome (answered status) = none
error_of_outcome (failed error) = some error

-- `finish`: a call ends, and the log has what became of it.
unfoldable pub finish : Settings → Call → (rest : List Call) → Outcome → ℕ → Switch → Switch
finish settings c rest outcome ms w =
    logged settings
      (entry_of c.started_at c.mode c.role c.origin c.url.href (status_of_outcome outcome)
        (error_of_outcome outcome) ms)
      (record w { in_flight = rest })

-- The answer to the sender, of a process that did not stop.
pub data Ack : Type 0 where
  too_large internal_error : Ack
  accepted : (code : ℕ) → Mode → (pending : Bool) → (error : Option String) → Ack

-- The outcome of the first destination by the deadline, or none.
unfoldable pub acknowledge : Started → Option Outcome → Ack
acknowledge refused outcome = too_large
acknowledge (unset mode) outcome = accepted 202 mode false none
acknowledge (bad_url mode) outcome = accepted 202 mode false (some bad_destination)
acknowledge thrown outcome = internal_error
acknowledge (sent_on mode call) (some (answered status)) = accepted status mode false none
acknowledge (sent_on mode call) (some (failed error)) = accepted 202 mode false (some error)
acknowledge (sent_on mode call) none = accepted 202 mode true none
