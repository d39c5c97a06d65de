-- ===== src/Urls.antt =====
-- Texts inside a URL: `encodeURIComponent` and the encoding of `URLSearchParams`, the language's own.
use qbo_invoice_sync.Common.{
  ℕ, ◌+◌, ◌-◌, ◌/◌, ◌%◌, Bool, ◌&&◌, ◌||◌, List, [], ◌∷◌, ◌++◌, ltb, leb, ◌==◌, if◌then◌else◌,
}

-- The UTF-8 bytes of a code point.
unfoldable pub utf8 : ℕ → List ℕ
utf8 c =
    if ltb c 0x80
    then c ∷ []
    else if ltb c 0x800
    then (0xC0 + c / 64) ∷ (0x80 + c % 64) ∷ []
    else if ltb c 0x10000
    then (0xE0 + c / 4096) ∷ (0x80 + c / 64 % 64) ∷ (0x80 + c % 64) ∷ []
    else (0xF0 + c / 262144) ∷ (0x80 + c / 4096 % 64) ∷ (0x80 + c / 64 % 64) ∷ (0x80 + c % 64) ∷ []

abbrev hex_upper : ℕ → ℕ
hex_upper d = if ltb d 10 then b'0' + d else b'A' + d - 10

unfoldable pub percent : List ℕ → List ℕ
percent [] = []
percent (b ∷ bs) = b'%' ∷ hex_upper (b / 16) ∷ hex_upper (b % 16) ∷ percent bs

abbrev pub is_alphanumeric : ℕ → Bool
is_alphanumeric c =
    (leb b'0' c && leb c b'9') || (leb b'A' c && leb c b'Z') || (leb b'a' c && leb c b'z')

-- What `encodeURIComponent` leaves as it is: letters, digits, and `-_.!~*'()`.
abbrev pub is_unreserved : ℕ → Bool
is_unreserved c =
    is_alphanumeric c
    || (c == b'-')
    || (c == b'_')
    || (c == b'.')
    || (c == b'!')
    || (c == b'~')
    || (leb 39 c && leb c 42)

unfoldable pub encode_uri_component : List ℕ → List ℕ
unfolding utf8 percent
encode_uri_component [] = []
encode_uri_component (c ∷ s) =
    (if is_unreserved c then c ∷ [] else percent (utf8 c)) ++ encode_uri_component s

abbrev pub form_character : ℕ → List ℕ
unfolding utf8 percent
form_character c =
    if is_alphanumeric c || (c == b'-') || (c == b'_') || (c == b'.') || (c == b'*')
    then c ∷ []
    else if c == b' '
    then b'+' ∷ []
    else percent (utf8 c)

-- A name or a value of `URLSearchParams`
unfoldable pub form_encode : List ℕ → List ℕ
unfolding utf8 percent
form_encode [] = []
form_encode (c ∷ s) = form_character c ++ form_encode s

-- `new URLSearchParams(entries).toString()`
unfoldable pub form_text : List (List ℕ × List ℕ) → List ℕ
unfolding form_encode
form_text [] = []
form_text ((k, v) ∷ []) = form_encode k ++ (b'=' ∷ form_encode v)
form_text ((k, v) ∷ f ∷ fs) =
    form_encode k ++ (b'=' ∷ (form_encode v ++ (b'&' ∷ form_text (f ∷ fs))))
