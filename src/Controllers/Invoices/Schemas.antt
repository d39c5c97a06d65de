-- ===== src/Controllers/Invoices/Schemas.antt =====
-- The schemas of src/controllers/invoiceController.ts, as functions from the body to the input.
use qbo_invoice_sync.Common.{
  Bool, Option, none, some, List, [], ◌∷◌, codes, length, String, ◌==◌, if◌then◌else◌,
}
use qbo_invoice_sync.Common.Int.{pos, leb_ℤ, ltb_ℤ}
use qbo_invoice_sync.Json
use qbo_invoice_sync.Json.{Json, num, str, arr, obj, Items, nil, cons, Fields}
use qbo_invoice_sync.Ledger.Editing.{LineInput, InternalInvoiceInput, InvoiceChanges, PaymentInput}
use qbo_invoice_sync.Controllers.{property, fields_of}
use qbo_invoice_sync.Controllers.Webhooks.{then_some, text_value, integer_value, nonempty}

-- A value, or nothing where it fails its test.
abbrev pub checked : {A : Type 0} → (A → Bool) → Option A → Option A
checked test none = none
checked test (some a) = if test a then some a else none

-- `.optional()`: an absent property is none.
abbrev pub optional : {A : Type 0} → (Option Json → Option A) → Option Json → Option (Option A)
optional read none = some none
optional read (some Json.Json.undefined) = some none
optional read v = then_some (read v) λ a. some (some a)

-- `.nullish()`: absent, null, or a value
abbrev pub nullish :
    {A : Type 0} → (Option Json → Option A) → Option Json → Option (Option (Option A))
nullish read none = some none
nullish read (some Json.Json.undefined) = some none
nullish read (some Json.Json.null) = some (some none)
nullish read v = then_some (read v) λ a. some (some (some a))

-- `value ?? null`
abbrev pub or_null : {A : Type 0} → Option (Option A) → Option A
or_null none = none
or_null (some a) = a

abbrev pub parse_line : Json → Option LineInput
unfolding property
parse_line body = then_some (fields_of body) λ fs.
    then_some (nonempty (text_value (property "itemCode" fs))) λ code.
      then_some (nullish text_value (property "description" fs)) λ description.
        then_some (checked (ltb_ℤ (pos 0)) (integer_value (property "quantity" fs))) λ quantity.
          then_some (checked (leb_ℤ (pos 0)) (integer_value (property "unitPriceCents" fs)))
            λ price. some (record {
              item_code = code;
              description = or_null description;
              quantity = quantity;
              unit_price_cents = price;
            })

unfoldable pub parse_items : Items → Option (List LineInput)
unfolding property
parse_items nil = some []
parse_items (cons x xs) =
    then_some (parse_line x) λ l. then_some (parse_items xs) λ ls. some (l ∷ ls)

abbrev pub given_lines : List LineInput → Option (List LineInput)
given_lines [] = none
given_lines (l ∷ ls) = some (l ∷ ls)

-- `z.array(lineSchema).min(1)`
abbrev pub lines_value : Option Json → Option (List LineInput)
unfolding parse_items
lines_value (some (arr xs)) = then_some (parse_items xs) given_lines
lines_value _ = none

-- `z.string().length(3)`
abbrev pub currency_value : Option Json → Option String
currency_value v = checked (λ s. length (codes s) == 3) (text_value v)

unfoldable pub parse_create_invoice : (String → Bool) → Json → Option InternalInvoiceInput
unfolding parse_items property
parse_create_invoice is_uuid body = then_some (fields_of body) λ fs.
    then_some (checked is_uuid (text_value (property "customerId" fs))) λ customer.
      then_some (optional currency_value (property "currency" fs)) λ currency.
        then_some (nullish text_value (property "notes" fs)) λ notes.
          then_some (lines_value (property "lines" fs)) λ lines. some (record {
            doc_number = none;
            customer_id = customer;
            currency = currency;
            notes = or_null notes;
            lines = lines;
          })

unfoldable pub parse_update_invoice : (String → Bool) → Json → Option InvoiceChanges
unfolding parse_items property
parse_update_invoice is_uuid body = then_some (fields_of body) λ fs.
    then_some (optional (λ v. checked is_uuid (text_value v)) (property "customerId" fs))
      λ customer. then_some (optional currency_value (property "currency" fs)) λ currency.
        then_some (nullish text_value (property "notes" fs)) λ notes.
          then_some (optional lines_value (property "lines" fs)) λ lines.
            some
              (record { customer_id = customer; currency = currency; notes = notes; lines = lines })

unfoldable pub parse_payment : Json → Option PaymentInput
unfolding property
parse_payment body = then_some (fields_of body) λ fs.
    then_some (checked (ltb_ℤ (pos 0)) (integer_value (property "amountCents" fs))) λ amount.
      then_some (optional text_value (property "method" fs))
        λ method. some (record { amount_cents = amount; method = method; received_at = none })

pub record CustomerInput : Type 0 where
  pub name : String
  pub email : Option String

unfoldable pub parse_customer : (String → Bool) → Json → Option CustomerInput
unfolding property
parse_customer is_email body = then_some (fields_of body) λ fs.
    then_some (nonempty (text_value (property "name" fs))) λ name.
      then_some (optional (λ v. checked is_email (text_value v)) (property "email" fs))
        λ email. some (record { name = name; email = email })
