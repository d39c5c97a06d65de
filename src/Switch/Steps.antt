-- ===== src/Switch/Steps.antt =====
-- The runs of deploy/webhook-switch/server.mjs: requests and ends of forwarded calls in any order,
-- and what holds throughout.
use mathlib.Core.Bool.{false≢true}
use qbo_invoice_sync.Common.{
  ℕ, ◌≤◌, arith, Bool, false, Bool-cases, inl, inr, ◌≡◌, refl, sym, subst, ◌∙◌, Option, List, [],
  ◌∷◌, ◌++◌, String, length, length-take-le, All, ltb, none, some, if◌then◌else◌,
}
use qbo_invoice_sync.Json.{Json}
use qbo_invoice_sync.Switch.{Settings, SwitchState, Incoming, Url, load_state, is_authorized}
use qbo_invoice_sync.Switch.Deliveries.{Call, Switch, Outcome, finish}
use qbo_invoice_sync.Switch.Control.{is_control, path_of, serve}
use qbo_invoice_sync.Switch.Routing.{
  IsRouted, Controlled, untouched, switched, handle_control-Controlled,
}
use qbo_invoice_sync.Switch.Passing.{latest, All-earlier, IsFaithful, Passed, handle_webhook-Passed}

abbrev pub started_from : Settings → Option Json → Switch
started_from settings file = record {
  state = load_state settings file;
  deliveries = [];
  in_flight = [];
  file = file;
  crashed = false;
}

-- The process refuses to run with a short secret.
unfoldable pub start_process : Settings → Option Json → Option Switch
unfolding load_state
start_process settings file =
    if ltb (length settings.admin_token) 16 then none else some (started_from settings file)

module _ (settings : Settings) (parse_json : List ℕ → Option Json) (parse_url : String → Option Url)
    (text_of : Json → String) where
  -- The states of the process that started on a file and served these requests, the latest first, each
  -- with the state that it came to. A call that is in flight may end at any time; nothing happens behind a crash.
  pub data Run (file : Option Json) : List (Incoming × SwitchState) → Switch → Type 0 where
    start : {w : Switch} → start_process settings file ≡ some w → Run file [] w
    request :
        {seen : List (Incoming × SwitchState)} {w : Switch} (at : String) (written : Bool)
        (req : Incoming)
        → w.crashed ≡ false
        → Run file seen w
        → Run file
            ((req, w.state) ∷ seen)
            (serve settings parse_json parse_url text_of at written req w).1
    ending :
        {seen : List (Incoming × SwitchState)} {w : Switch} (before after : List Call) (c : Call)
        (outcome : Outcome) (ms : ℕ)
        → w.in_flight ≡ before ++ (c ∷ after)
        → w.crashed ≡ false
        → Run file seen w
        → Run file seen (finish settings c (before ++ after) outcome ms w)

-- A well-formed process: the log is no longer than its limit, the destination of the mode is set, now
-- and after a restart from the file, what is in flight was not altered, and the state is the one that
-- was read at the start unless an authorised request came.
pub record IsSound (settings : Settings) (parse_url : String → Option Url) (file : Option Json)
    (seen : List (Incoming × SwitchState)) (w : Switch) : Type 0 where
  pub bounded : length w.deliveries ≤ settings.log_limit
  pub routed : IsRouted w.state
  pub saved : IsRouted (load_state settings w.file)
  pub faithful : All (IsFaithful settings parse_url seen) w.in_flight
  pub guarded :
      All (λ r. is_authorized settings r.0 ≡ false) seen → w.state ≡ load_state settings file

-- Every request keeps the process well formed.
module _ (settings : Settings) (parse_json : List ℕ → Option Json) (parse_url : String → Option Url)
    (text_of : Json → String) (file : Option Json) (seen : List (Incoming × SwitchState))
    (req : Incoming) (w : Switch) (sound : IsSound settings parse_url file seen w) where
  later_calls : All (IsFaithful settings parse_url ((req, w.state) ∷ seen)) w.in_flight
  later_calls = All-earlier settings parse_url seen (req, w.state) w.in_flight sound.faithful

  Controlled-IsSound :
      (u : Switch)
      → Controlled settings req w u
      → IsSound settings parse_url file ((req, w.state) ∷ seen) u
  Controlled-IsSound u (untouched same) =
      subst (IsSound settings parse_url file ((req, w.state) ∷ seen)) (sym same) (record {
        bounded = sound.bounded;
        routed = sound.routed;
        saved = sound.saved;
        faithful = later_calls;
        guarded = λ h. sound.guarded h.1;
      })
  Controlled-IsSound u (switched next kept granted fine later same) =
      subst (IsSound settings parse_url file ((req, w.state) ∷ seen)) (sym same) (record {
        bounded = sound.bounded;
        routed = fine;
        saved = later;
        faithful = later_calls;
        guarded = λ h. absurd (false≢true (sym h.0 ∙ granted));
      })

  Passed-IsSound :
      (u : Switch)
      → Passed settings parse_url ((req, w.state) ∷ seen) w u
      → IsSound settings parse_url file ((req, w.state) ∷ seen) u
  Passed-IsSound u p = record {
    bounded = p.log sound.bounded;
    routed = subst IsRouted (sym p.same_state) sound.routed;
    saved = subst (λ f. IsRouted (load_state settings f)) (sym p.same_file) sound.saved;
    faithful = p.calls later_calls;
    guarded = λ h. p.same_state ∙ sound.guarded h.1;
  }

  serve-IsSound :
      (at : String) (written : Bool)
      → IsSound settings parse_url file
          ((req, w.state) ∷ seen)
          (serve settings parse_json parse_url text_of at written req w).1
  unfolding serve
  serve-IsSound at written = elim (Bool-cases (is_control (path_of req.url))) [
    | inl control ↦ rw control (
        Controlled-IsSound _ (
          handle_control-Controlled settings parse_json parse_url text_of at written req w
            sound.saved (path_of req.url)))
    | inr delivery ↦ rw delivery (
        Passed-IsSound _
          (handle_webhook-Passed settings parse_url at ((req, w.state) ∷ seen) req w latest))
  ]

All-without :
    {A : Type 0} (P : A → Type 0) (before : List A) (c : A) (after : List A)
    → All P (before ++ (c ∷ after))
    → All P (before ++ after)
All-without P [] c after h = h.1
All-without P (b ∷ before) c after h = (h.0, All-without P before c after h.1)

finish-IsSound :
    (settings : Settings) (parse_url : String → Option Url) (file : Option Json)
    (seen : List (Incoming × SwitchState)) (w : Switch) (before after : List Call) (c : Call)
    (outcome : Outcome) (ms : ℕ)
    → w.in_flight ≡ before ++ (c ∷ after)
    → IsSound settings parse_url file seen w
    → IsSound settings parse_url file seen (finish settings c (before ++ after) outcome ms w)
unfolding finish
finish-IsSound settings parse_url file seen w before after c outcome ms there sound = record {
  bounded = length-take-le settings.log_limit _;
  routed = sound.routed;
  saved = sound.saved;
  faithful =
      All-without (IsFaithful settings parse_url seen) before c after
        (subst (All (IsFaithful settings parse_url seen)) there sound.faithful);
  guarded = sound.guarded;
}

started_from-IsSound :
    (settings : Settings) (parse_url : String → Option Url) (file : Option Json)
    → IsRouted (load_state settings file)
    → IsSound settings parse_url file [] (started_from settings file)
started_from-IsSound settings parse_url file routed = record {
  bounded = omega arith;
  routed = routed;
  saved = routed;
  faithful = tt;
  guarded = λ h. refl;
}

start_process-IsSound :
    (settings : Settings) (parse_url : String → Option Url) (file : Option Json) (w : Switch)
    → IsRouted (load_state settings file)
    → start_process settings file ≡ some w
    → IsSound settings parse_url file [] w
unfolding start_process
start_process-IsSound settings parse_url file w routed e =
    elim (Bool-cases (ltb (length settings.admin_token) 16)) [
      | inl short ↦ let f = rw short at e in absurd (cc)
      | inr long ↦
          let f : some (started_from settings file) ≡ some w = rw long at e in
          let same : started_from settings file ≡ w = cc in
          subst (IsSound settings parse_url file []) same
            (started_from-IsSound settings parse_url file routed)
    ]

-- In every state that the switch reaches from a state file with a destination for its mode, whatever
-- requests come and in whatever order the forwarded calls end: the log is no longer than its limit; a
-- mode that sends to the target has one, now and when the process starts again from its file; each
-- call in flight is of a request that came, and goes to its path at the destination which the mode and
-- the target of that time have for the role, with the method, all the bytes and the headers that were
-- received, but for the connection's headers and those that the switch sets; and unless an authorised
-- request came, the mode and the target are the file's.
pub switch-IsSound :
    (settings : Settings) (parse_json : List ℕ → Option Json) (parse_url : String → Option Url)
    (text_of : Json → String) (file : Option Json) (seen : List (Incoming × SwitchState))
    (w : Switch)
    → IsRouted (load_state settings file)
    → Run settings parse_json parse_url text_of file seen w
    → IsSound settings parse_url file seen w
switch-IsSound settings parse_json parse_url text_of file seen w routed (start e) =
    start_process-IsSound settings parse_url file w routed e
switch-IsSound settings parse_json parse_url text_of file seen w routed
      (request {w = v} at written req running r) =
    serve-IsSound settings parse_json parse_url text_of file _ req v
      (switch-IsSound settings parse_json parse_url text_of file _ v routed r) at written
switch-IsSound settings parse_json parse_url text_of file seen w routed
      (ending {w = v} before after c outcome ms there running r) =
    finish-IsSound settings parse_url file seen v before after c outcome ms there
      (switch-IsSound settings parse_json parse_url text_of file seen v routed r)
