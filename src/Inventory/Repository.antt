-- ===== src/Inventory/Repository.antt =====
-- The tables of the inventory and their repository
-- (src/context/inventory/infrastructure/persistence/repositories/inventory-item.repository.ts). A row of
-- a batch or of a configuration is the entity with the id of its item; the mappers' conversions
-- to and from text are left out. `save` runs in one transaction.
pub mod Reconcile
use komi_saas_api.Base.{
  ℕ, String, Option, none, some, Bool, true, false, not, ◌&&◌, ◌||◌, List, [], ◌∷◌, map, filter,
  find, any, str_eq, if◌then◌else◌,
}
use komi_saas_api.Shared.Decimal.{Decimal}
use komi_saas_api.Shared.Quantity
use komi_saas_api.Inventory.Batch.{Batch}
use komi_saas_api.Inventory.Item.{Item, BranchConfig}

pub record ItemRow (d : Decimal) : Type 0 where
  pub id : String
  pub tenant_id : String
  pub sku : String
  pub name : String
  pub unit_of_measure : String
  pub is_perishable : Bool
  pub is_active : Bool
  pub min_global_stock : Option d.Num
  pub created_at : ℕ
  pub updated_at : ℕ

pub record BatchRow (d : Decimal) : Type 0 where
  pub item_id : String
  pub batch : Batch d

pub record ConfigRow (d : Decimal) : Type 0 where
  pub item_id : String
  pub config : BranchConfig d

pub record Database (d : Decimal) : Type 0 where
  pub items : List (ItemRow d)
  pub batches : List (BatchRow d)
  pub configs : List (ConfigRow d)

-- TypeORM's `save` of one row: an update of the row with its key, or an insert.
unfoldable pub upsert {ℓ} : {A : Type ℓ} → (A → String) → A → List A → List A
upsert key x [] = x ∷ []
upsert key x (y ∷ ys) = if str_eq (key y) (key x) then x ∷ ys else y ∷ upsert key x ys

unfoldable pub upsert_all {ℓ} : {A : Type ℓ} → (A → String) → List A → List A → List A
unfolding upsert
upsert_all key [] rows = rows
upsert_all key (x ∷ xs) rows = upsert_all key xs (upsert key x rows)

-- `branchId !== undefined ? … = :branchId`
abbrev pub in_scope : Option String → String → Bool
in_scope none branch = true
in_scope (some wanted) branch = str_eq branch wanted

abbrev pub item_key : {d : Decimal} → ItemRow d → String
item_key row = row.id

abbrev pub batch_key : {d : Decimal} → BatchRow d → String
batch_key row = row.batch.id

abbrev pub config_key : {d : Decimal} → ConfigRow d → String
config_key row = row.config.id

module _ {d : Decimal} where
  unfoldable pub active_batches_of : String → Option String → Database d → List (Batch d)
  active_batches_of item branch db =
      map (λ row. row.batch)
        (filter
          (λ row.
            str_eq row.item_id item
            && Quantity.is_greater_than d row.batch.quantity_remaining (Quantity.zero d)
            && in_scope branch row.batch.branch_id)
          db.batches)

  abbrev pub config_wanted : String → Option String → ConfigRow d → Bool
  config_wanted item branch row = str_eq row.item_id item && in_scope branch row.config.branch_id

  unfoldable pub branch_configs_of : String → Option String → Database d → List (BranchConfig d)
  branch_configs_of item branch db =
      map (λ row. row.config) (filter (config_wanted item branch) db.configs)

  abbrev pub to_aggregate : ItemRow d → List (Batch d) → List (BranchConfig d) → Item d
  to_aggregate row batches configs = record {
    id = row.id;
    tenant_id = row.tenant_id;
    sku = row.sku;
    name = row.name;
    unit_of_measure = row.unit_of_measure;
    batches = batches;
    is_perishable = row.is_perishable;
    is_active = row.is_active;
    min_global_stock = row.min_global_stock;
    branch_configs = configs;
    created_at = row.created_at;
    updated_at = row.updated_at;
    domain_events = [];
  }

  abbrev pub with_children : Option String → Database d → Option (ItemRow d) → Option (Item d)
  with_children branch db none = none
  with_children branch db (some row) =
      some
        (to_aggregate row (active_batches_of row.id branch db) (branch_configs_of row.id branch db))

  unfoldable pub find_by_id : String → String → Option String → Database d → Option (Item d)
  unfolding active_batches_of branch_configs_of
  find_by_id id tenant branch db =
      with_children branch db
        (find (λ row. str_eq row.id id && str_eq row.tenant_id tenant) db.items)

  abbrev pub to_item_row : Item d → ItemRow d
  to_item_row item = record {
    id = item.id;
    tenant_id = item.tenant_id;
    sku = item.sku;
    name = item.name;
    unit_of_measure = item.unit_of_measure;
    is_perishable = item.is_perishable;
    is_active = item.is_active;
    min_global_stock = item.min_global_stock;
    created_at = item.created_at;
    updated_at = item.updated_at;
  }

  abbrev pub batch_rows : Item d → List (BatchRow d)
  batch_rows item = map (λ b. record { item_id = item.id; batch = b }) item.batches

  abbrev pub config_rows : Item d → List (ConfigRow d)
  config_rows item = map (λ c. record { item_id = item.id; config = c }) item.branch_configs

  -- `DELETE … WHERE inventory_item_id = :itemId AND inventory_branch_config_id NOT IN (:...keptIds)`,
  -- without the second condition where no id is kept.
  abbrev pub survives : Item d → ConfigRow d → Bool
  survives item row =
      not (str_eq row.item_id item.id) || any (λ c. str_eq c.id row.config.id) item.branch_configs

  unfoldable pub reconcile_configs : Item d → List (ConfigRow d) → List (ConfigRow d)
  unfolding upsert_all
  reconcile_configs item rows =
      upsert_all config_key (config_rows item) (filter (survives item) rows)

  unfoldable pub save : Item d → Database d → Database d
  unfolding upsert_all reconcile_configs
  save item db = record {
    items = upsert item_key (to_item_row item) db.items;
    batches = upsert_all batch_key (batch_rows item) db.batches;
    configs = reconcile_configs item db.configs;
  }
