-- ===== src/Products/Table.antt =====
-- The tables of the products (src/context/products/infrastructure/persistence): the rows, the mapper and
-- the repository. Whether the database takes a row, and the moment it writes, are arguments.
use komi_saas_api.Base.{
  ℕ, String, Option, none, some, Bool, not, ◌&&◌, List, [], ◌∷◌, ◌++◌, map, filter, find, any, ltb,
  trim, utf16_length, str_eq, if◌then◌else◌,
}
use komi_saas_api.Base.Throws.{Result, ok, ◌>>=◌, ◌>>◌, throw_if}
use komi_saas_api.Shared.Value.{create_uuid}
use komi_saas_api.Shared.Decimal.{Decimal}
use komi_saas_api.Shared.Money as Money_ops
use komi_saas_api.Shared.Money.{get_amount}
use komi_saas_api.Shared.Quantity.{get_value}
use komi_saas_api.Shared.Status.{EntityStatus, is}
use komi_saas_api.Products.Failure.{
  ProductError, invalid_uuid, invalid_product_name, not_stored, lift_shared,
}
use komi_saas_api.Products.Profitability.{create_margin, margin_value}
use komi_saas_api.Products.Recipe.{Ingredient}
use komi_saas_api.Products.Product.{Product}

-- `ProductEntity`
pub record ProductRow : Type 0 where
  pub id : String
  pub tenant_id : String
  pub product_category_id : String
  pub name : String
  pub description : Option String
  pub base_price : String
  pub cost : String
  pub profit_margin : String
  pub status : EntityStatus
  pub image_url : Option String
  pub sku : String
  pub created_at : ℕ
  pub updated_at : ℕ

-- `RecipeIngredientEntity`
pub record IngredientRow : Type 0 where
  pub id : String
  pub product_id : String
  pub inventory_item_id : String
  pub quantity : String
  pub is_optional : Bool

pub record Database : Type 0 where
  pub products : List ProductRow
  pub ingredients : List IngredientRow

-- The test of the uuid package, JavaScript's `toUpperCase`, the database's `LOWER`, whether a tenant and a
-- category of a tenant are found, and whether the database takes a row.
pub record Ports : Type 0 where
  pub valid_uuid : String → Bool
  pub upper_case : String → String
  pub sql_lower : String → String
  pub tenant_found : String → Bool
  -- the tenant and the category
  pub category_found : String → String → Bool
  pub accepts : ProductRow → Database → Bool

-- `ProductName.create`
unfoldable pub create_name : String → Result ProductError String
create_name raw = do
  let value = trim raw
  throw_if (ltb (utf16_length value) 2) (invalid_product_name "mínimo 2 caracteres")
  throw_if (ltb 120 (utf16_length value)) (invalid_product_name "máximo 120 caracteres")
  ok value

abbrev pub has_id : String → ProductRow → Bool
has_id id row = str_eq row.id id

-- The product of the tenant that is not deleted.
abbrev pub same_key : String → String → ProductRow → Bool
same_key id tenant row =
    str_eq row.id id && str_eq row.tenant_id tenant && not (is EntityStatus.deleted row.status)

module _ (d : Decimal) where
  -- `ProductMapper.toEntity`, with the moments that the database writes.
  unfoldable pub to_entity : Product d → ℕ → ℕ → ProductRow
  unfolding margin_value get_amount
  to_entity p created updated = record {
    id = p.id;
    tenant_id = p.tenant_id;
    product_category_id = p.product_category_id;
    name = p.product_name;
    description = p.product_description;
    base_price = get_amount d p.product_base_price;
    cost = get_amount d p.product_cost;
    profit_margin = margin_value d p.profit_margin;
    status = p.status;
    image_url = p.product_img_url;
    sku = p.product_sku;
    created_at = created;
    updated_at = updated;
  }

  unfoldable pub map_ingredients : String → List (Ingredient d) → List IngredientRow
  unfolding get_value
  map_ingredients product [] = []
  map_ingredients product (c ∷ cs) =
      record {
        id = c.id;
        product_id = product;
        inventory_item_id = c.inventory_item_id;
        quantity = get_value d c.quantity;
        is_optional = c.is_optional;
      }
      ∷ map_ingredients product cs

  abbrev pub written : Product d → ℕ → ProductRow → ProductRow
  written p now row = if has_id p.id row then to_entity p row.created_at now else row

  -- `save` of a product with a new id.
  unfoldable pub save : Ports → Product d → ℕ → Database → Result ProductError Database
  unfolding to_entity map_ingredients
  save ports p now db = do
    throw_if (not (ports.accepts (to_entity p now now) db)) not_stored
    ok (record {
      products = db.products ++ to_entity p now now ∷ [];
      ingredients = db.ingredients ++ map_ingredients p.id p.ingredients;
    })

  -- The ingredients are written over only where there are any.
  abbrev pub replaced : String → List IngredientRow → List IngredientRow → List IngredientRow
  replaced product [] rows = rows
  replaced product (i ∷ is) rows =
      filter (λ row. not (str_eq row.product_id product)) rows ++ i ∷ is

  unfoldable pub update : Ports → Product d → ℕ → Database → Result ProductError Database
  unfolding to_entity map_ingredients
  update ports p now db = do
    throw_if (not (ports.accepts (to_entity p now now) db)) not_stored
    ok (record {
      products = map (written p now) db.products;
      ingredients = replaced p.id (map_ingredients p.id p.ingredients) db.ingredients;
    })

  -- `ProductMapper.toDomain` with no ingredients, and `fromPrimitives`.
  unfoldable pub to_domain : Ports → ProductRow → Result ProductError (Product d)
  unfolding create_uuid create_name create_margin
  to_domain ports row = do
    id ← create_uuid ports.valid_uuid invalid_uuid row.id
    name ← create_name row.name
    price ← lift_shared (Money_ops.of d ports.upper_case row.base_price "COP")
    cost ← lift_shared (Money_ops.of d ports.upper_case row.cost "COP")
    margin ← create_margin d row.profit_margin
    ok (record {
      id = id;
      tenant_id = row.tenant_id;
      product_category_id = row.product_category_id;
      product_name = name;
      product_description = row.description;
      product_sku = row.sku;
      product_img_url = row.image_url;
      product_base_price = price;
      product_cost = cost;
      profit_margin = margin;
      status = row.status;
      ingredients = [];
      created_at = row.created_at;
      updated_at = row.updated_at;
      domain_events = [];
    })

  abbrev pub optional_domain : Ports → Option ProductRow → Result ProductError (Option (Product d))
  optional_domain ports none = ok none
  optional_domain ports (some row) = to_domain ports row >>= λ p. ok (some p)

  unfoldable pub find_by_id :
      Ports → String → String → Database → Result ProductError (Option (Product d))
  unfolding to_domain
  find_by_id ports id tenant db = optional_domain ports (find (same_key id tenant) db.products)

-- The name of a deleted product is free.
unfoldable pub exists_by_name : Ports → String → String → Database → Bool
exists_by_name ports name tenant db =
    any
      (λ row.
        str_eq (ports.sql_lower row.name) (ports.sql_lower name)
        && str_eq row.tenant_id tenant
        && not (is EntityStatus.deleted row.status))
      db.products
