-- ===== src/Switch/Headers.antt =====
-- outboundHeaders of deploy/webhook-switch/server.mjs: what a forwarded request carries, and that a
-- header that is not the connection's own comes through.
use mathlib.Core.Bool.{false≢true}
use qbo_invoice_sync.Common.{
  ℕ, Bool, true, false, not, ◌||◌, Bool-cases, inl, inr, ◌≡◌, refl, sym, ap, ◌∙◌, or_else, List, [],
  ◌∷◌, ◌++◌, append_assoc, append-nil, length, String, str_eq, str_eq_iff, if◌then◌else◌,
}
use qbo_invoice_sync.Common.Int.{pos}
use qbo_invoice_sync.Texts.{lower, print}
use qbo_invoice_sync.Switch.{Incoming, Url}

-- A property of the header object, with one value or a list of them.
pub record Header : Type 0 where
  pub name : String
  pub values : List String

abbrev pub is_one_of : String → List String → Bool
is_one_of name [] = false
is_one_of name (n ∷ ns) = str_eq name n || is_one_of name ns

abbrev drop_headers : List String
drop_headers =
    "connection" ∷ "keep-alive" ∷ "proxy-authenticate" ∷ "proxy-authorization" ∷ "te" ∷ "trailer"
    ∷ "transfer-encoding" ∷ "upgrade" ∷ "host" ∷ "content-length" ∷ "expect" ∷ []

unfoldable pub is_dropped : String → Bool
unfolding lower
is_dropped name = is_one_of (lower name) drop_headers

unfoldable pub add_header : String → String → List Header → List Header
add_header name value [] = record { name = name; values = value ∷ [] } ∷ []
add_header name value (h ∷ hs) =
    if str_eq h.name name
    then record { name = h.name; values = h.values ++ (value ∷ []) } ∷ hs
    else h ∷ add_header name value hs

-- `headers[name] = value`
unfoldable pub set_header : String → String → List Header → List Header
set_header name value [] = record { name = name; values = value ∷ [] } ∷ []
set_header name value (h ∷ hs) =
    if str_eq h.name name
    then record { name = h.name; values = value ∷ [] } ∷ hs
    else h ∷ set_header name value hs

-- `rawHeaders` alternates names and values.
unfoldable pub copy_headers : List String → List Header → List Header
unfolding is_dropped add_header
copy_headers [] hs = hs
copy_headers (name ∷ []) hs = hs
copy_headers (name ∷ value ∷ raw) hs =
    copy_headers raw (if is_dropped name then hs else add_header name value hs)

unfoldable pub outbound_headers : Incoming → List ℕ → Url → List Header
unfolding copy_headers set_header print
outbound_headers req body target_url = set_header "x-forwarded-host" (or_else req.host "") (
    set_header "x-webhook-switch" "1" (
      set_header "content-length" (print (pos (length body)))
        (set_header "host" target_url.host (copy_headers req.raw_headers []))))

-- The values that are sent, and those that were received, under a name.
unfoldable pub values_of : String → List Header → List String
values_of n [] = []
values_of n (h ∷ hs) = if str_eq h.name n then h.values else values_of n hs

abbrev pub value_if : Bool → String → List String
value_if true v = v ∷ []
value_if false v = []

unfoldable pub received : String → List String → List String
received n [] = []
received n (name ∷ []) = []
received n (name ∷ value ∷ raw) = value_if (str_eq name n) value ++ received n raw

-- A test that holds at the one text and fails at the other tells them apart.
told_apart :
    (test : String → Bool) (a b : String) → test a ≡ true → test b ≡ false → str_eq a b ≡ false
told_apart test a b p q = elim (Bool-cases (str_eq a b)) [
  | inl same ↦ absurd (false≢true (sym q ∙ ap test (sym ((str_eq_iff a b).0 same)) ∙ p))
  | inr other ↦ other
]

values_of-add_header :
    (n name value : String) (hs : List Header)
    → values_of n (add_header name value hs) ≡ values_of n hs ++ value_if (str_eq name n) value
unfolding values_of add_header
values_of-add_header n name value [] = elim (Bool-cases (str_eq name n)) [
  | inl e ↦ rw e refl
  | inr e ↦ rw e refl
]
values_of-add_header n name value (h ∷ hs) = elim (Bool-cases (str_eq h.name name)) [
  | inl e ↦
      let same : h.name ≡ name = (str_eq_iff h.name name).0 e in
      rw (e, ← same)
        (elim (Bool-cases (str_eq h.name n)) [
          | inl f ↦ rw f refl
          | inr f ↦ rw (f, append-nil (values_of n hs)) refl
        ])
  | inr e ↦ rw e (elim (Bool-cases (str_eq h.name n)) [
    | inl f ↦
        let other : str_eq name n ≡ false =
          told_apart (λ x. not (str_eq h.name x)) name n (ap not e) (ap not f) in
        rw (f, other) (sym (append-nil h.values))
    | inr f ↦ rw f (values_of-add_header n name value hs)
  ])
]

values_of-set_header :
    (n name value : String) (hs : List Header)
    → str_eq name n ≡ false
    → values_of n (set_header name value hs) ≡ values_of n hs
unfolding values_of set_header
values_of-set_header n name value [] e = rw e refl
values_of-set_header n name value (h ∷ hs) e = elim (Bool-cases (str_eq h.name name)) [
  | inl f ↦
      let same : h.name ≡ name = (str_eq_iff h.name name).0 f in
      let other : str_eq h.name n ≡ false = ap (λ x. str_eq x n) same ∙ e in rw (f, other) refl
  | inr f ↦ rw f (elim (Bool-cases (str_eq h.name n)) [
    | inl g ↦ rw g refl
    | inr g ↦ rw g (values_of-set_header n name value hs e)
  ])
]

values_of-copy_headers :
    (n : String) (raw : List String) (hs : List Header)
    → is_dropped n ≡ false
    → values_of n (copy_headers raw hs) ≡ values_of n hs ++ received n raw
unfolding copy_headers received
values_of-copy_headers n [] hs k = sym (append-nil (values_of n hs))
values_of-copy_headers n (name ∷ []) hs k = sym (append-nil (values_of n hs))
values_of-copy_headers n (name ∷ value ∷ raw) hs k = elim (Bool-cases (is_dropped name)) [
  | inl d ↦
      let other : str_eq name n ≡ false = told_apart is_dropped name n d k in
      rw (d, other) (values_of-copy_headers n raw hs k)
  | inr d ↦ rw d (
      values_of-copy_headers n raw (add_header name value hs) k
      ∙ ap (λ vs. vs ++ received n raw) (values_of-add_header n name value hs)
      ∙ append_assoc (values_of n hs) (value_if (str_eq name n) value) (received n raw))
]

abbrev pub own_headers : List String
own_headers = "host" ∷ "content-length" ∷ "x-webhook-switch" ∷ "x-forwarded-host" ∷ []

-- A header that is neither the connection's nor one of those that the switch sets is forwarded with
-- all its values, in their order.
pub values_of-outbound_headers :
    (n : String) (req : Incoming) (body : List ℕ) (url : Url)
    → is_dropped n ≡ false
    → is_one_of n own_headers ≡ false
    → values_of n (outbound_headers req body url) ≡ received n req.raw_headers
unfolding outbound_headers received values_of
values_of-outbound_headers n req body url k other =
    let own : String → Bool = λ x. is_one_of x own_headers in
    values_of-set_header n "x-forwarded-host" _ _ (told_apart own "x-forwarded-host" n refl other)
    ∙ values_of-set_header n "x-webhook-switch" _ _ (told_apart own "x-webhook-switch" n refl other)
    ∙ values_of-set_header n "content-length" _ _ (told_apart own "content-length" n refl other)
    ∙ values_of-set_header n "host" _ _ (told_apart own "host" n refl other)
    ∙ values_of-copy_headers n req.raw_headers [] k
