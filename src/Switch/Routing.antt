-- ===== src/Switch/Routing.antt =====
-- A change that the control interface of deploy/webhook-switch/server.mjs takes has its destination.
use qbo_invoice_sync.Common.{
  ℕ, arith, Bool, true, false, ◌&&◌, ◌||◌, Bool-cases, inl, inr, ◌≡◌, refl, sym, subst, Option,
  none, some, List, String, str_eq, if◌then◌else◌,
}
use qbo_invoice_sync.Json.{Json, null, str, bool, num, arr, obj, undefined}
use qbo_invoice_sync.Controllers.{property}
use qbo_invoice_sync.Switch.{
  Mode, local_mode, forward_mode, both_mode, Settings, SwitchState, Incoming, Url, load_state,
  state_json, is_authorized, read_body, property_of,
}
use qbo_invoice_sync.Switch.Deliveries.{Switch}
use qbo_invoice_sync.Switch.Control.{
  Change, changed, invalid, needs_target, and_then, complete, next_state, mode_change,
  target_change, commit, apply_body, parsed_body, handle_control,
}

-- Where a mode has a target among its destinations, the target is set.
abbrev pub IsRouted : SwitchState → Type 0
IsRouted s = needs_target s.mode ≡ true → str_eq s.target "" ≡ false

-- What a request to the control interface leaves.
pub data Controlled (settings : Settings) (req : Incoming) (w u : Switch) : Type 0 where
  untouched : u ≡ w → Controlled settings req w u
  switched :
      (next : SwitchState) (kept : Option Json)
      → is_authorized settings req ≡ true
      → IsRouted next
      → IsRouted (load_state settings kept)
      → u ≡ record w { state = next; file = kept }
      → Controlled settings req w u

complete-IsRouted : (s t : SwitchState) → complete s ≡ changed t → IsRouted t
complete-IsRouted s t e needed = elim (Bool-cases (needs_target s.mode && str_eq s.target "")) [
  | inl missing ↦ let f = rw missing at e in absurd (cc)
  | inr fine ↦
      let f = rw fine at e in
      let same : s ≡ t = cc in
      subst (λ x. needs_target x.mode ≡ true → str_eq x.target "" ≡ false) same
        (λ n. ground (arith, n, fine)) needed
]

and_then-IsRouted : (c : Change) (t : SwitchState) → and_then c complete ≡ changed t → IsRouted t
and_then-IsRouted (changed s) t e = complete-IsRouted s t e
and_then-IsRouted (invalid message) t e = cc

next_state-IsRouted :
    (parse_url : String → Option Url) (text_of : Json → String) (s : SwitchState) (parsed : Json)
    (t : SwitchState)
    → next_state parse_url text_of s parsed ≡ changed t
    → IsRouted t
unfolding next_state
next_state-IsRouted parse_url text_of s parsed t e =
    and_then-IsRouted
      (and_then (mode_change s (property_of "mode" parsed))
        (λ u. target_change parse_url text_of u (property_of "target" parsed)))
      t e

load_saved :
    (settings : Settings) (s : SwitchState) (at : String)
    → load_state settings (some (state_json (record s { updated_at = str at })))
      ≡ record s { updated_at = str at }
unfolding load_state property
load_saved settings s at = by_mode s.mode
  where
    by_mode :
        (m : Mode)
        → load_state settings (some (state_json (record s { mode = m; updated_at = str at })))
          ≡ record s { mode = m; updated_at = str at }
    by_mode local_mode = refl
    by_mode forward_mode = refl
    by_mode both_mode = refl

module _ (settings : Settings) (parse_json : List ℕ → Option Json) (parse_url : String → Option Url)
    (text_of : Json → String) (at : String) (written : Bool) (req : Incoming) (w : Switch)
    (saved : IsRouted (load_state settings w.file))
    (granted : is_authorized settings req ≡ true) where
  commit-Controlled :
      (c : Change)
      → ((t : SwitchState) → c ≡ changed t → IsRouted t)
      → Controlled settings req w (commit settings parse_json parse_url text_of at written c w).1
  commit-Controlled (invalid message) ok_change = untouched refl
  commit-Controlled (changed s) ok_change =
      let next : SwitchState = record s { updated_at = str at } in
      let fine : IsRouted next = ok_change s refl in
      switched next (if written then some (state_json next) else w.file) granted fine
        (elim (Bool-cases written) [
          | inl taken ↦ rw taken (subst IsRouted (sym (load_saved settings s at)) fine)
          | inr refused ↦ rw refused saved
        ])
        refl

  parsed-Controlled :
      (parsed : Json)
      → Controlled settings req w
          (commit settings parse_json parse_url text_of at written
            (next_state parse_url text_of w.state parsed)
            w).1
  parsed-Controlled parsed =
      commit-Controlled (next_state parse_url text_of w.state parsed)
        (next_state-IsRouted parse_url text_of w.state parsed)

  apply_body-Controlled :
      (body : Option Json)
      → Controlled settings req w
          (apply_body settings parse_json parse_url text_of at written body w).1
  unfolding apply_body
  apply_body-Controlled none = untouched refl
  apply_body-Controlled (some null) = untouched refl
  apply_body-Controlled (some undefined) = parsed-Controlled undefined
  apply_body-Controlled (some (bool b)) = parsed-Controlled (bool b)
  apply_body-Controlled (some (num n)) = parsed-Controlled (num n)
  apply_body-Controlled (some (str s)) = parsed-Controlled (str s)
  apply_body-Controlled (some (arr xs)) = parsed-Controlled (arr xs)
  apply_body-Controlled (some (obj fs)) = parsed-Controlled (obj fs)

module _ (settings : Settings) (parse_json : List ℕ → Option Json) (parse_url : String → Option Url)
    (text_of : Json → String) (at : String) (written : Bool) (req : Incoming) (w : Switch)
    (saved : IsRouted (load_state settings w.file)) where
  pub handle_control-Controlled :
      (path : String)
      → Controlled settings req w
          (handle_control settings parse_json parse_url text_of at written req path w).1
  unfolding handle_control
  handle_control-Controlled path = elim (Bool-cases (str_eq path "/_switch/health")) [
    | inl h ↦ rw h (untouched refl)
    | inr h ↦ rw h (elim (Bool-cases (is_authorized settings req)) [
      | inl granted ↦
          rw granted (elim (Bool-cases (str_eq req.method "GET" && str_eq path "/_switch")) [
            | inl p ↦ rw p (untouched refl)
            | inr p ↦
                rw p (elim (Bool-cases (str_eq req.method "GET" && str_eq path "/_switch/status")) [
                  | inl q ↦ rw q (untouched refl)
                  | inr q ↦
                      rw q
                        (elim (Bool-cases (
                          str_eq req.method "POST"
                          && (str_eq path "/_switch" || str_eq path "/_switch/status"))) [
                            | inl posted ↦ rw posted (
                                apply_body-Controlled settings parse_json parse_url text_of at
                                  written req w saved granted
                                  (parsed_body settings parse_json parse_url text_of
                                    (read_body settings req)))
                            | inr other ↦ rw other (untouched refl)
                          ])
                ])
          ])
      | inr denied ↦
          rw denied (elim (Bool-cases (str_eq req.method "GET" && str_eq path "/_switch")) [
            | inl p ↦ rw p (untouched refl)
            | inr p ↦ rw p (untouched refl)
          ])
    ])
  ]
