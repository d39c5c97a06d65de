-- ===== src/Switch/Tests.antt =====
-- A switch that is turned to both destinations and forwards a delivery, and the theorem there.
use qbo_invoice_sync.Common.{
  ℕ, true, false, ◌≡◌, refl, Option, none, some, List, [], ◌∷◌, String, codes, text_eq,
}
use qbo_invoice_sync.Json.{Json, str, obj, end, field}
use qbo_invoice_sync.Controllers.{property}
use qbo_invoice_sync.Decimal.{to_digits}
use qbo_invoice_sync.Texts.{lower, print}
use qbo_invoice_sync.Urls.{utf8}
use qbo_invoice_sync.Switch.{
  Settings, Incoming, Url, both_mode, load_state, is_authorized, read_chunks, read_body,
  trim_slashes,
}
use qbo_invoice_sync.Switch.Headers.{
  Header, outbound_headers, copy_headers, add_header, set_header, is_dropped,
}
use qbo_invoice_sync.Switch.Deliveries.{Switch}
use qbo_invoice_sync.Switch.Control.{
  next_state, apply_body, handle_control, is_control, path_of, serve,
}
use qbo_invoice_sync.Switch.Routing.{IsRouted}
use qbo_invoice_sync.Switch.Steps.{
  start_process, started_from, start_process, IsSound, Run, start, request, switch-IsSound,
}

abbrev settings : Settings
settings = record {
  mode = none;
  target = none;
  primary_url = "http://app:3000";
  admin_token = codes "0123456789abcdef";
  log_limit = 2;
  max_body_bytes = 4;
}

abbrev parse_url : String → Option Url
parse_url text = some (record { protocol = "https:"; host = "t.io"; href = "https://t.io//" })

abbrev parse_json : List ℕ → Option Json
parse_json raw = some (obj (field "target" (str "https://t.io//") (field "mode" (str "both") end)))

abbrev text_of : Json → String
text_of v = ""

abbrev turning : Incoming
turning = record {
  method = "POST";
  url = "/_switch?now";
  authorization = some (codes "bearer 0123456789abcdef");
  switch_token = none;
  host = none;
  raw_headers = [];
  chunks = (1 ∷ []) ∷ [];
}

abbrev delivery : Incoming
delivery = record {
  method = "POST";
  url = "/webhooks/qbo";
  authorization = none;
  switch_token = none;
  host = some "hooks.io";
  raw_headers = "Host" ∷ "hooks.io" ∷ "intuit-signature" ∷ "abc" ∷ [];
  chunks = (1 ∷ 2 ∷ []) ∷ (3 ∷ []) ∷ [];
}

abbrev turned : Switch
turned =
    (serve settings parse_json parse_url text_of "now" true turning (started_from settings none)).1

turned_test :
    turned.state ≡ record { mode = both_mode; target = "https://t.io"; updated_at = str "now" }
unfolding serve path_of is_control handle_control is_authorized text_eq utf8 read_body read_chunks
    apply_body next_state property trim_slashes load_state
turned_test = refl

started : start_process settings none ≡ some (started_from settings none)
unfolding start_process
started = refl

turned_running : turned.crashed ≡ false
unfolding serve path_of is_control handle_control is_authorized text_eq utf8 read_body read_chunks
    apply_body next_state property trim_slashes load_state
turned_running = refl

run :
    Run settings parse_json parse_url text_of none
      ((delivery, turned.state) ∷ (turning, (started_from settings none).state) ∷ [])
      (serve settings parse_json parse_url text_of "then" true delivery turned).1
run = request "then" true delivery turned_running (request "now" true turning refl (start started))

abbrev sent_headers : List Header
sent_headers =
    record { name = "intuit-signature"; values = "abc" ∷ [] }
    ∷ record { name = "host"; values = "t.io" ∷ [] }
    ∷ record { name = "content-length"; values = "3" ∷ [] }
    ∷ record { name = "x-webhook-switch"; values = "1" ∷ [] }
    ∷ record { name = "x-forwarded-host"; values = "hooks.io" ∷ [] }
    ∷ []

headers_test :
    outbound_headers delivery
      (1 ∷ 2 ∷ 3 ∷ [])
      (record { protocol = "https:"; host = "t.io"; href = "" })
    ≡ sent_headers
unfolding outbound_headers copy_headers add_header set_header is_dropped lower print to_digits
headers_test = refl

oversized_test :
    read_body settings (record delivery { chunks = (1 ∷ 2 ∷ 3 ∷ []) ∷ (4 ∷ 5 ∷ []) ∷ [] }) ≡ none
unfolding read_body read_chunks
oversized_test = refl

starts_local : IsRouted (load_state settings none)
unfolding load_state
starts_local needed = cc

switch-IsSound_example :
    IsSound settings parse_url none
      ((delivery, turned.state) ∷ (turning, (started_from settings none).state) ∷ [])
      (serve settings parse_json parse_url text_of "then" true delivery turned).1
switch-IsSound_example =
    switch-IsSound settings parse_json parse_url text_of none
      ((delivery, turned.state) ∷ (turning, (started_from settings none).state) ∷ []) _ starts_local
      run
