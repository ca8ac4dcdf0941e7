-- ===== src/Inventory/Catalogue.antt =====
-- The update of an item
-- (src/context/inventory/application/use-cases/update-item/update-inventory-item.use-case.ts), with the
-- value objects of a name and a unit (src/context/inventory/domain/value-objects) and `existsByName`.
pub mod Renaming
use komi_saas_api.Base.{
  ℕ, String, Option, none, some, Bool, ◌&&◌, any, str_eq, ltb, trim, utf16_length, if◌then◌else◌,
  or_else, [], ◌∷◌, not,
}
use komi_saas_api.Base.Throws.{Result, ok, err, ◌>>=◌, ◌>>◌, throw_if}
use komi_saas_api.Shared.Decimal.{Decimal}
use komi_saas_api.Shared.Money as Money_ops
use komi_saas_api.Inventory.Item as Item_ops
use komi_saas_api.Inventory.Item.{Item}
use komi_saas_api.Inventory.Stock.{default_currency}
use komi_saas_api.Inventory.Repository.{Database, find_by_id, save}
use komi_saas_api.Inventory.UseCase.{
  UseCaseError, item_not_found, name_already_exists, invalid_name, invalid_unit, lift, or_missing,
}

-- `InventoryItemName.create`
unfoldable pub create_name : String → Result UseCaseError String
create_name raw = do
  let value = trim raw
  throw_if (ltb (utf16_length value) 2) (invalid_name "mínimo 2 caracteres")
  throw_if (ltb 120 (utf16_length value)) (invalid_name "máximo 120 caracteres")
  ok value

-- `InventoryItemUnit.create`; the case mapping of the JavaScript runtime is the argument `upper_case`.
unfoldable pub create_unit : (String → String) → String → Result UseCaseError String
create_unit upper_case raw = do
  let normalized = upper_case (trim raw)
  throw_if (not (any (str_eq normalized) ("GRAM" ∷ "MILLILITER" ∷ "UNIT" ∷ []))) (invalid_unit raw)
  ok normalized

-- `UpdateInventoryItemParams`, each left out or given.
pub record UpdateParams : Type 0 where
  pub name : Option String
  pub cost_amount : Option String
  pub cost_currency : Option String
  pub unit_of_measure : Option String
  pub is_perishable : Option Bool

abbrev pub optional_unit : (String → String) → Option String → Result UseCaseError (Option String)
optional_unit upper_case none = ok none
optional_unit upper_case (some raw) = create_unit upper_case raw >>= λ unit. ok (some unit)

-- The cost is read, which may throw, and then ignored by the aggregate.
abbrev pub check_cost :
    (d : Decimal)
    → (String → String)
    → Option String
    → Option String
    → Result UseCaseError (Unit {0})
check_cost d upper_case none currency = ok tt
check_cost d upper_case (some amount) currency =
    lift (Money_ops.of d upper_case amount (or_else currency default_currency)) >>= λ _. ok tt

module _ {d : Decimal} where
  -- `existsByName`: a row of the tenant with exactly this name.
  unfoldable pub exists_by_name : String → String → Database d → Bool
  exists_by_name name tenant db =
      any (λ row. str_eq row.name name && str_eq row.tenant_id tenant) db.items

  abbrev pub new_name : Option String → String → Database d → Result UseCaseError (Option String)
  new_name none tenant db = ok none
  new_name (some raw) tenant db = do
    name ← create_name raw
    throw_if (exists_by_name name tenant db) (name_already_exists raw)
    ok (some name)

  abbrev pub updated : Result UseCaseError (Unit {0}) → Item d → Result UseCaseError (Item d)
  updated (ok _) item = ok item
  updated (err e) item = err e

  unfoldable pub update_item :
      (String → String)
      → String
      → String
      → UpdateParams
      → ℕ
      → Database d
      → Result UseCaseError (Database d)
  unfolding create_name create_unit exists_by_name
  update_item upper_case item_id tenant params now db = do
    item ← or_missing (find_by_id item_id tenant none db) (item_not_found item_id)
    name ← new_name params.name tenant db
    check_cost d upper_case params.cost_amount params.cost_currency
    unit ← optional_unit upper_case params.unit_of_measure
    let (outcome, changed) =
        Item_ops.update
          (record { name = name; unit_of_measure = unit; is_perishable = params.is_perishable }) now
          item
    item' ← updated (lift outcome) changed
    ok (save item' db)
