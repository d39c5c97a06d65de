-- ===== src/Items.antt =====
-- Which item of a provider an item code stands for: the table `item_mappings` behind
-- src/models/repositories/itemMappingRepository.ts, in the order in which it is read.
use qbo_invoice_sync.Common.{Option, none, some, List, [], ◌∷◌, ◌&&◌, String, str_eq, if◌then◌else◌}

pub record ItemRow : Type 0 where
  pub provider : String
  pub item_code : String
  pub external_item_id : String
  pub external_name : Option String

unfoldable pub get_external_item_id : String → String → List ItemRow → Option String
get_external_item_id provider code [] = none
get_external_item_id provider code (r ∷ rs) =
    if str_eq r.provider provider && str_eq r.item_code code
    then some r.external_item_id
    else get_external_item_id provider code rs

unfoldable pub get_item_code : String → String → List ItemRow → Option String
get_item_code provider id [] = none
get_item_code provider id (r ∷ rs) =
    if str_eq r.provider provider && str_eq r.external_item_id id
    then some r.item_code
    else get_item_code provider id rs

-- `INSERT … ON CONFLICT (provider, item_code) DO UPDATE`
unfoldable pub upsert : ItemRow → List ItemRow → List ItemRow
upsert new [] = new ∷ []
upsert new (r ∷ rs) =
    if str_eq r.provider new.provider && str_eq r.item_code new.item_code
    then record r { external_item_id = new.external_item_id; external_name = new.external_name }
      ∷ rs
    else r ∷ upsert new rs
