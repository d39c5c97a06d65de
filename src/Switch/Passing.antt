-- ===== src/Switch/Passing.antt =====
-- What a delivery through deploy/webhook-switch/server.mjs leaves, and what it sends.
use Prim.Native.String.{◌++◌ as text_append}
use qbo_invoice_sync.Common.{
  ℕ, ◌+◌, ◌≤◌, false, Bool-cases, inl, inr, ◌≡◌, refl, sym, ap, ◌∙◌, Option, none, some, List, [],
  ◌∷◌, ◌++◌, String, str_eq, ltb, length, length-take-le, All, All-append,
}
use qbo_invoice_sync.Switch.{
  Mode, local_mode, forward_mode, both_mode, Settings, SwitchState, Entry, Role, primary, secondary,
  Incoming, Url, read_body, read_chunks, joined, trim_slashes,
}
use qbo_invoice_sync.Switch.Headers.{
  values_of, received, is_dropped, is_one_of, own_headers, values_of-outbound_headers,
}
use qbo_invoice_sync.Switch.Deliveries.{
  Call, Switch, Started, refused, unset, bad_url, thrown, sent_on, is_http, unawaited,
  destinations_for, logged, launch, also, deliver, forward, handle_webhook,
}

abbrev pub all_chunks : List (List ℕ) → List ℕ
all_chunks [] = []
all_chunks (chunk ∷ chunks) = chunk ++ all_chunks chunks

-- The destination of a role in a mode, with the target that was set when the request came.
abbrev pub base_of : Settings → (target : String) → Mode → Role → String
base_of settings target forward_mode primary = target
base_of settings target local_mode primary = settings.primary_url
base_of settings target both_mode primary = settings.primary_url
base_of settings target mode secondary = target

-- The request came when the switch was in the state, by the record of what came.
pub data Came (req : Incoming) (state : SwitchState) : List (Incoming × SwitchState) → Type 0 where
  latest : {seen : List (Incoming × SwitchState)} → Came req state ((req, state) ∷ seen)
  earlier :
      {seen : List (Incoming × SwitchState)} {other : Incoming × SwitchState}
      → Came req state seen
      → Came req state (other ∷ seen)

-- What is sent is a request that came: its method, all its bytes and its own headers, to its path at
-- the destination that the mode and the target of that time have for the role.
pub record IsFaithful (settings : Settings) (parse_url : String → Option Url)
    (seen : List (Incoming × SwitchState)) (c : Call) : Type 0 where
  pub state : SwitchState
  pub came : Came c.origin state seen
  pub same_mode : c.mode ≡ state.mode
  pub same_method : c.method ≡ c.origin.method
  pub same_body : c.body ≡ all_chunks c.origin.chunks
  pub same_path :
      let base = base_of settings state.target c.mode c.role in
      parse_url (text_append (trim_slashes base) c.origin.url) ≡ some c.url
  pub same_headers :
      (name : String)
      → is_dropped name ≡ false
      → is_one_of name own_headers ≡ false
      → values_of name c.headers ≡ received name c.origin.raw_headers

pub All-earlier :
    (settings : Settings) (parse_url : String → Option Url) (seen : List (Incoming × SwitchState))
    (other : Incoming × SwitchState) (calls : List Call)
    → All (IsFaithful settings parse_url seen) calls
    → All (IsFaithful settings parse_url (other ∷ seen)) calls
All-earlier settings parse_url seen other [] h = tt
All-earlier settings parse_url seen other (c ∷ calls) h = (
  record {
    state = h.0.state;
    came = earlier h.0.came;
    same_mode = h.0.same_mode;
    same_method = h.0.same_method;
    same_body = h.0.same_body;
    same_path = h.0.same_path;
    same_headers = h.0.same_headers;
  },
  All-earlier settings parse_url seen other calls h.1,
)

read_chunks-all :
    (limit size : ℕ) (chunks : List (List ℕ)) {body : List ℕ}
    → read_chunks limit size chunks ≡ some body
    → body ≡ all_chunks chunks
unfolding read_chunks
read_chunks-all limit size [] e = cc
read_chunks-all limit size (chunk ∷ chunks) {body} e =
    elim (Bool-cases (ltb limit (size + length chunk))) [
      | inl over ↦ let f = rw over at e in absurd (cc)
      | inr within ↦
          go (read_chunks limit (size + length chunk) chunks)
            (λ more. read_chunks-all limit (size + length chunk) chunks) (rw within at e)
    ]
  where
    go :
        (rest : Option (List ℕ))
        → ((more : List ℕ) → rest ≡ some more → more ≡ all_chunks chunks)
        → joined chunk rest ≡ some body
        → body ≡ chunk ++ all_chunks chunks
    go none h f = cc
    go (some more) h f =
        let same : chunk ++ more ≡ body = cc in sym same ∙ ap (λ x. chunk ++ x) (h more refl)

-- What a delivery leaves: the state as it is, a log within its limit, and calls that were not altered.
pub record Passed (settings : Settings) (parse_url : String → Option Url)
    (seen : List (Incoming × SwitchState)) (w u : Switch) : Type 0 where
  pub same_state : u.state ≡ w.state
  pub same_file : u.file ≡ w.file
  pub log : length w.deliveries ≤ settings.log_limit → length u.deliveries ≤ settings.log_limit
  pub calls :
      All (IsFaithful settings parse_url seen) w.in_flight
      → All (IsFaithful settings parse_url seen) u.in_flight

Passed-refl :
    (settings : Settings) (parse_url : String → Option Url) (seen : List (Incoming × SwitchState))
    (w : Switch)
    → Passed settings parse_url seen w w
Passed-refl settings parse_url seen w = record {
  same_state = refl;
  same_file = refl;
  log = λ h. h;
  calls = λ h. h;
}

Passed-trans :
    (settings : Settings) (parse_url : String → Option Url) (seen : List (Incoming × SwitchState))
    (w u v : Switch)
    → Passed settings parse_url seen w u
    → Passed settings parse_url seen u v
    → Passed settings parse_url seen w v
Passed-trans settings parse_url seen w u v p q = record {
  same_state = q.same_state ∙ p.same_state;
  same_file = q.same_file ∙ p.same_file;
  log = λ h. q.log (p.log h);
  calls = λ h. q.calls (p.calls h);
}

pub logged-Passed :
    (settings : Settings) (parse_url : String → Option Url) (seen : List (Incoming × SwitchState))
    (entry : Entry) (w : Switch)
    → Passed settings parse_url seen w (logged settings entry w)
logged-Passed settings parse_url seen entry w = record {
  same_state = refl;
  same_file = refl;
  log = λ h. length-take-le settings.log_limit (entry ∷ w.deliveries);
  calls = λ h. h;
}

module _ (settings : Settings) (parse_url : String → Option Url) (at : String)
    (seen : List (Incoming × SwitchState)) (req : Incoming) (state : SwitchState)
    (came : Came req state seen) where
  launch-Passed :
      (role : Role) (body : List ℕ) (mode : Mode) (w : Switch) (url : Option Url)
      → mode ≡ state.mode
      → body ≡ all_chunks req.chunks
      → let base = base_of settings state.target mode role in
        parse_url (text_append (trim_slashes base) req.url) ≡ url
        → Passed settings parse_url seen w
            (launch settings parse_url at base url role req body mode w).1
  unfolding launch
  launch-Passed role body mode w none now whole e = logged-Passed settings parse_url seen _ w
  launch-Passed role body mode w (some url) now whole e = elim (Bool-cases (is_http url)) [
    | inl fine ↦ rw fine (record {
      same_state = refl;
      same_file = refl;
      log = λ h. h;
      calls = λ h. All-append (IsFaithful settings parse_url seen) w.in_flight _ h (
        record {
          state = state;
          came = came;
          same_mode = now;
          same_method = refl;
          same_body = whole;
          same_path = e;
          same_headers = λ name own set. values_of-outbound_headers name req body url own set;
        },
        tt,
      );
    })
    | inr other ↦ rw other (Passed-refl settings parse_url seen w)
  ]

  forward-Passed :
      (role : Role) (body : List ℕ) (mode : Mode) (w : Switch)
      → mode ≡ state.mode
      → body ≡ all_chunks req.chunks
      → Passed settings parse_url seen w
          (forward settings parse_url at
            (base_of settings state.target mode role)
            role
            req
            body
            mode
            w).1
  unfolding forward
  forward-Passed role body mode w now whole = launch-Passed role body mode w _ now whole refl

  unawaited-Passed :
      (w : Switch) (r : Started × Switch)
      → Passed settings parse_url seen w r.1
      → Passed settings parse_url seen w (unawaited r)
  unawaited-Passed w (thrown, u) p = record {
    same_state = p.same_state;
    same_file = p.same_file;
    log = p.log;
    calls = p.calls;
  }
  unawaited-Passed w (refused, u) p = p
  unawaited-Passed w (unset mode, u) p = p
  unawaited-Passed w (bad_url mode, u) p = p
  unawaited-Passed w (sent_on mode call, u) p = p

  also-Passed :
      (body : List ℕ) (mode : Mode) (w : Switch) (r : Started × Switch)
      → mode ≡ state.mode
      → body ≡ all_chunks req.chunks
      → Passed settings parse_url seen w r.1
      → Passed settings parse_url seen w
          (also settings parse_url at
            (base_of settings state.target mode secondary)
            req
            body
            mode
            r).1
  unfolding also
  also-Passed body mode w (started, u) now whole p =
      elim (Bool-cases (str_eq (base_of settings state.target mode secondary) "")) [
        | inl alone ↦ rw alone p
        | inr both ↦ rw both (
            Passed-trans settings parse_url seen w u _ p
              (unawaited-Passed u _ (forward-Passed secondary body mode u now whole)))
      ]

  also-alone :
      (body : List ℕ) (mode : Mode) (w : Switch) (r : Started × Switch)
      → Passed settings parse_url seen w r.1
      → Passed settings parse_url seen w (also settings parse_url at "" req body mode r).1
  unfolding also
  also-alone body mode w (started, u) p = p

  -- The destinations of a mode, one after the other.
  both-Passed :
      (body : List ℕ) (mode : Mode) (w : Switch)
      → mode ≡ state.mode
      → body ≡ all_chunks req.chunks
      → let (first, second) = destinations_for settings state mode in
        Passed settings parse_url seen w
          (also settings parse_url at second req body mode
            (forward settings parse_url at first primary req body mode w)).1
  both-Passed body local_mode w now whole =
      also-alone body local_mode w _ (forward-Passed primary body local_mode w now whole)
  both-Passed body forward_mode w now whole =
      also-alone body forward_mode w _ (forward-Passed primary body forward_mode w now whole)
  both-Passed body both_mode w now whole =
      also-Passed body both_mode w _ now whole (forward-Passed primary body both_mode w now whole)

module _ (settings : Settings) (parse_url : String → Option Url) (at : String)
    (seen : List (Incoming × SwitchState)) (req : Incoming) where
  deliver-Passed :
      (body : Option (List ℕ)) (w : Switch)
      → Came req w.state seen
      → ((b : List ℕ) → body ≡ some b → b ≡ all_chunks req.chunks)
      → Passed settings parse_url seen w (deliver settings parse_url at req body w).1
  unfolding deliver
  deliver-Passed none w came whole = Passed-refl settings parse_url seen w
  deliver-Passed (some body) w came whole =
      elim (Bool-cases (str_eq (destinations_for settings w.state w.state.mode).0 "")) [
        | inl missing ↦ rw missing (logged-Passed settings parse_url seen _ w)
        | inr there ↦ rw there (
            both-Passed settings parse_url at seen req w.state came body w.state.mode w refl
              (whole body refl))
      ]

  pub handle_webhook-Passed :
      (w : Switch)
      → Came req w.state seen
      → Passed settings parse_url seen w (handle_webhook settings parse_url at req w).1
  unfolding handle_webhook read_body
  handle_webhook-Passed w came =
      deliver-Passed (read_body settings req) w came
        (λ b. read_chunks-all settings.max_body_bytes 0 req.chunks)
