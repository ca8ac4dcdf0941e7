-- ===== src/Inventory/Catalogue/Renaming.antt =====
-- Updating an item with the name that it has.
use komi_saas_api.Base.{
  ℕ, String, some, true, List, [], ◌∷◌, any, find, str_eq, ◌&&◌, ◌≡◌, arith, eq_refl,
}
use komi_saas_api.Base.Throws.{ok, err}
use komi_saas_api.Shared.Decimal.{Decimal}
use komi_saas_api.Inventory.Repository.{ItemRow, Database, find_by_id}
use komi_saas_api.Inventory.UseCase.{name_already_exists}
use komi_saas_api.Inventory.Catalogue.{UpdateParams, create_name, update_item}

module _ {d : Decimal} where
  named_row :
      (id tenant : String) (row : ItemRow d) (rows : List (ItemRow d))
      → find (λ r. str_eq r.id id && str_eq r.tenant_id tenant) rows ≡ some row
      → any (λ r. str_eq r.name row.name && str_eq r.tenant_id tenant) rows ≡ true
  named_row id tenant row [] e = cc
  named_row id tenant row (r ∷ rows) e =
      ground (arith, eq_refl row.name, named_row id tenant row rows)

  -- An update that gives an item the name it already has, where the name read from the text is
  -- valid and is that of the item found, is refused as a name that exists.
  pub own_name_refused :
      (upper_case : String → String) (id tenant raw : String) (params : UpdateParams) (now : ℕ)
      (db : Database d) (row : ItemRow d)
      → find (λ r. str_eq r.id id && str_eq r.tenant_id tenant) db.items ≡ some row
      → params.name ≡ some raw
      → create_name raw ≡ ok row.name
      → update_item upper_case id tenant params now db ≡ err (name_already_exists raw)
  unfolding update_item find_by_id
  own_name_refused upper_case id tenant raw params now db row e en ec =
      ground (arith, named_row id tenant row db.items e)
