-- ===== src/Json.antt =====
-- JSON values and their deterministic text: `stableStringify` of src/models/invoice.ts, over
-- `JSON.stringify` of scalars, which is the language's own. Texts are lists of code points; numbers
-- are integers, the only ones that a snapshot holds.
pub mod Quoting
use text.Mathlib.Text.{is_lt}
use Prim.Native.String.{compare as compare_keys}
use qbo_invoice_sync.Common.{
  ℕ, suc, ◌+◌, ◌-◌, ◌/◌, ◌%◌, String, codes, Bool, true, false, ◌≡◌, refl, List, [], ◌∷◌, ◌++◌,
  ◌==◌, ltb, if◌then◌else◌,
}
use qbo_invoice_sync.Common.Int.{ℤ, pos, negsuc}
use qbo_invoice_sync.Decimal.{to_digits}

-- An object holds its entries in insertion order; `undefined` is the value of an entry that
-- `Object.entries` lists and the filter drops.
mutual
  pub data Json : Type 0 where
    undefined null : Json
    bool : Bool → Json
    num : ℤ → Json
    str : String → Json
    arr : Items → Json
    obj : Fields → Json

  pub data Items : Type 0 where
    nil : Items
    cons : Json → Items → Items

  pub data Fields : Type 0 where
    end : Fields
    field : String → Json → Fields → Fields

hex_digit : ℕ → ℕ
hex_digit d = if ltb d 10 then b'0' + d else b'a' + d - 10

-- One character inside the quotes.
unfoldable pub escape : ℕ → List ℕ
unfolding hex_digit
escape c =
    if c == b'"'
    then b'\\' ∷ b'"' ∷ []
    else if c == b'\\'
    then b'\\' ∷ b'\\' ∷ []
    else if c == 8
    then b'\\' ∷ b'b' ∷ []
    else if c == 9
    then b'\\' ∷ b't' ∷ []
    else if c == 10
    then b'\\' ∷ b'n' ∷ []
    else if c == 12
    then b'\\' ∷ b'f' ∷ []
    else if c == 13
    then b'\\' ∷ b'r' ∷ []
    else if ltb c 32
    then b'\\' ∷ b'u' ∷ b'0' ∷ b'0' ∷ hex_digit (c / 16) ∷ hex_digit (c % 16) ∷ []
    else c ∷ []

unfoldable pub escape_all : List ℕ → List ℕ
escape_all [] = []
escape_all (c ∷ s) = escape c ++ escape_all s

-- `JSON.stringify` of a string
unfoldable pub quote : String → List ℕ
quote s = b'"' ∷ (escape_all (codes s) ++ b'"' ∷ [])

-- `JSON.stringify` of an integer
unfoldable pub number_text : ℤ → List ℕ
number_text (pos n) = to_digits n
number_text (negsuc n) = b'-' ∷ to_digits (suc n)

-- `parts.join(",")`
unfoldable pub join_commas : List (List ℕ) → List ℕ
join_commas [] = []
join_commas (p ∷ []) = p
join_commas (p ∷ q ∷ ps) = p ++ (b',' ∷ join_commas (q ∷ ps))

-- The comparator of the sort: `a < b ? -1 : a > b ? 1 : 0`, an entry moving before the first
-- that is larger, so that equal keys keep their order.
unfoldable pub insert_entry : String × List ℕ → List (String × List ℕ) → List (String × List ℕ)
insert_entry e [] = e ∷ []
insert_entry e (f ∷ fs) = if is_lt (compare_keys e.0 f.0) then e ∷ f ∷ fs else f ∷ insert_entry e fs

-- `entries.sort(…)`, the entries of `acc` being in order already
unfoldable pub sort_entries :
    List (String × List ℕ) → List (String × List ℕ) → List (String × List ℕ)
unfolding insert_entry
sort_entries acc [] = acc
sort_entries acc (e ∷ es) = sort_entries (insert_entry e acc) es

-- `${JSON.stringify(k)}:${stableStringify(v)}`, with the printed value
unfoldable pub entry_text : String × List ℕ → List ℕ
unfolding quote
entry_text (k, v) = quote k ++ (b':' ∷ v)

unfoldable pub entry_texts : List (String × List ℕ) → List (List ℕ)
unfolding entry_text
entry_texts [] = []
entry_texts (e ∷ es) = entry_text e ∷ entry_texts es

-- The sort looks at the keys alone, so the values are printed first.
unfoldable mutual
  unfolding quote number_text join_commas sort_entries entry_texts

  pub stable_stringify : Json → List ℕ
  stable_stringify undefined = []
  stable_stringify null = codes "null"
  stable_stringify (bool true) = codes "true"
  stable_stringify (bool false) = codes "false"
  stable_stringify (num z) = number_text z
  stable_stringify (str s) = quote s
  stable_stringify (arr xs) = b'[' ∷ (join_commas (item_texts xs) ++ b']' ∷ [])
  stable_stringify (obj fs) =
      b'{' ∷ (join_commas (entry_texts (sort_entries [] (field_texts fs))) ++ b'}' ∷ [])

  pub item_texts : Items → List (List ℕ)
  item_texts nil = []
  item_texts (cons x xs) = stable_stringify x ∷ item_texts xs

  -- `Object.entries(value).filter(([, v]) => v !== undefined)`
  pub field_texts : Fields → List (String × List ℕ)
  field_texts end = []
  field_texts (field k undefined fs) = field_texts fs
  field_texts (field k v fs) = (k, stable_stringify v) ∷ field_texts fs

sorted_keys_test :
    stable_stringify
      (obj (field "b" (num (negsuc 4)) (field "x" undefined (field "a" (str "q\"") end))))
    ≡ codes "{\"a\":\"q\\\"\",\"b\":-5}"
unfolding stable_stringify escape_all escape to_digits
sorted_keys_test = refl
