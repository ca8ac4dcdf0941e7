-- ===== src/Products/Requests.antt =====
-- The requests on products: the use cases of src/context/products/application/use-cases (create-item,
-- update-item and delete-item) and the adapters of their ports. A request is a function of the database, to
-- the database after it and the events that are published.
use komi_saas_api.Base.{
  ℕ, String, Option, none, some, Bool, true, false, not, ◌||◌, List, is_empty, or_else, str_eq,
  if◌then◌else◌,
}
use komi_saas_api.Base.Throws.{Result, ok, err, ◌>>=◌, ◌>>◌, throw_if}
use komi_saas_api.Shared.Value.{create_uuid}
use komi_saas_api.Shared.Decimal.{Decimal}
use komi_saas_api.Shared.Money as Money_ops
use komi_saas_api.Shared.Money.{Money, get_amount}
use komi_saas_api.Shared.Status.{EntityStatus, is}
use komi_saas_api.Products.Failure.{
  ProductError, invalid_uuid, product_not_found, tenant_not_found, category_not_found,
  name_already_exists, sku_not_generated, not_modified, lift_shared,
}
use komi_saas_api.Products.Profitability.{create_margin, margin_value}
use komi_saas_api.Products.Sku.{from_number}
use komi_saas_api.Products.Product as Product_ops
use komi_saas_api.Products.Product.{Product, ProductData, ProductEvent, change_status}
use komi_saas_api.Products.Table as Table
use komi_saas_api.Products.Table.{Database, Ports, create_name, find_by_id, exists_by_name, save}

-- `CreateProductApplicationParams`, whose margin is the value object.
pub record CreateParams (d : Decimal) : Type 0 where
  pub tenant_id : String
  pub product_category_id : String
  pub product_name : String
  pub product_description : Option String
  pub product_img_url : Option String
  pub product_base_price : String
  pub product_cost : String
  pub profit_margin : d.Num

-- `UpdateProductApplicationParams`; what is left out is `none`.
pub record UpdateParams (d : Decimal) : Type 0 where
  pub id : String
  pub tenant_id : String
  pub product_category_id : Option String
  pub product_name : Option String
  pub product_description : Option String
  pub product_img_url : Option String
  pub product_base_price : Option String
  pub product_cost : Option String
  pub profit_margin : Option d.Num
  pub status : Option EntityStatus

-- `given !== undefined && given !== current`
unfoldable pub differs : Option String → Option String → Bool
differs none current = false
differs (some given) none = true
differs (some given) (some current) = not (str_eq given current)

unfoldable pub status_differs : Option EntityStatus → EntityStatus → Bool
status_differs none current = false
status_differs (some given) current = not (is given current)

-- `given ?? current`
abbrev pub coalesce : Option String → Option String → Option String
coalesce none current = current
coalesce (some given) current = some given

-- `given ? create(given) : create(current)`
unfoldable pub name_or : Option String → String → Result ProductError String
name_or none current = create_name current
name_or (some given) current = if is_empty given then create_name current else create_name given

-- `rows[0]` of the sequence, where a missing row throws.
unfoldable pub next_sku_sequence : Option ℕ → Result ProductError ℕ
next_sku_sequence none = err sku_not_generated
next_sku_sequence (some n) = ok n

abbrev pub margin_text : (d : Decimal) → Option d.Num → Option String
margin_text d none = none
margin_text d (some margin) = some (margin_value d margin)

abbrev pub margin_or : (d : Decimal) → Option d.Num → String → Result ProductError d.Num
margin_or d none current = create_margin d current
margin_or d (some margin) current = ok margin

module _ (ports : Ports) where
  -- `TenantCheckerAdapter.exists`, and the throw where it is false.
  unfoldable pub ensure_tenant : String → Result ProductError (Unit {0})
  unfolding create_uuid
  ensure_tenant tenant = do
    id ← create_uuid ports.valid_uuid invalid_uuid tenant
    throw_if (not (ports.tenant_found id)) (tenant_not_found tenant)

  unfoldable pub ensure_category : String → String → Result ProductError (Unit {0})
  ensure_category tenant category =
      throw_if (not (ports.category_found tenant category)) (category_not_found category)

  -- `if (params.productCategoryId) { … }`
  abbrev pub ensure_given_category : String → Option String → Result ProductError (Unit {0})
  ensure_given_category tenant none = ok tt
  ensure_given_category tenant (some category) =
      if is_empty category then ok tt else ensure_category tenant category

module _ {d : Decimal} where
  unfoldable pub or_not_found : String → Option (Product d) → Result ProductError (Product d)
  or_not_found id none = err (product_not_found id)
  or_not_found id (some p) = ok p

  -- `hasChanges`: the amounts are compared as texts.
  unfoldable pub has_changes : UpdateParams d → Product d → Bool
  unfolding differs status_differs
  has_changes params p =
      differs params.product_category_id (some p.product_category_id)
      || differs params.product_name (some p.product_name)
      || differs params.product_description p.product_description
      || differs params.product_img_url p.product_img_url
      || differs params.product_base_price (some (get_amount d p.product_base_price))
      || differs params.product_cost (some (get_amount d p.product_cost))
      || differs (margin_text d params.profit_margin) (some (margin_value d p.profit_margin))
      || status_differs params.status p.status

  abbrev pub updated : Result ProductError (Unit {0}) × Product d → Result ProductError (Product d)
  updated (ok _, p) = ok p
  updated (err e, p) = err e

  abbrev pub with_status : Option EntityStatus → ℕ → Product d → Result ProductError (Product d)
  with_status none now p = ok p
  with_status (some next) now p = if is next p.status then ok p else change_status next now p

module _ {d : Decimal} (ports : Ports) where
  abbrev pub money : String → Result ProductError (Money d)
  money amount = lift_shared (Money_ops.of d ports.upper_case amount "COP")

  -- `CreateProductUseCase.execute`; `sequence` is what the sequence of the database answers.
  unfoldable pub create_product :
      CreateParams d
      → Option ℕ
      → String
      → ℕ
      → Database
      → Result ProductError (Database × List (ProductEvent d))
  unfolding ensure_tenant ensure_category next_sku_sequence
  create_product params sequence id now db = do
    ensure_tenant ports params.tenant_id
    ensure_category ports params.tenant_id params.product_category_id
    name ← create_name params.product_name
    throw_if (exists_by_name ports name params.tenant_id db) (name_already_exists name)
    number ← next_sku_sequence sequence
    price ← money params.product_base_price
    cost ← money params.product_cost
    p ←
        Product_ops.create params.tenant_id (from_number number)
          (record {
            product_category_id = params.product_category_id;
            product_name = name;
            product_description = params.product_description;
            product_img_url = params.product_img_url;
            product_base_price = price;
            product_cost = cost;
            profit_margin = params.profit_margin;
          })
          id now
    db' ← save d ports p now db
    ok (db', p.domain_events)

  -- The product of the tenant, which must be there.
  unfoldable pub the_product : String → String → Database → Result ProductError (Product d)
  unfolding create_uuid or_not_found
  the_product id tenant db = do
    value ← create_uuid ports.valid_uuid invalid_uuid id
    found ← find_by_id d ports value tenant db
    or_not_found id found

  -- The values of the update: what is left out is taken from the product.
  unfoldable pub read_data : UpdateParams d → Product d → Result ProductError (ProductData d)
  unfolding name_or
  read_data params p = do
    name ← name_or params.product_name p.product_name
    price ← money (or_else params.product_base_price (get_amount d p.product_base_price))
    cost ← money (or_else params.product_cost (get_amount d p.product_cost))
    margin ← margin_or d params.profit_margin (margin_value d p.profit_margin)
    ok (record {
      product_category_id = or_else params.product_category_id p.product_category_id;
      product_name = name;
      product_description = coalesce params.product_description p.product_description;
      product_img_url = coalesce params.product_img_url p.product_img_url;
      product_base_price = price;
      product_cost = cost;
      profit_margin = margin;
    })

  -- `UpdateProductUseCase.execute`
  unfoldable pub update_product : UpdateParams d → ℕ → Database → Result ProductError Database
  unfolding ensure_tenant the_product has_changes read_data
  update_product params now db = do
    ensure_tenant ports params.tenant_id
    p ← the_product params.id params.tenant_id db
    ensure_given_category ports params.tenant_id params.product_category_id
    throw_if (not (has_changes params p)) not_modified
    values ← read_data params p
    p' ← updated (Product_ops.update values now p)
    p'' ← with_status params.status now p'
    Table.update d ports p'' now db

  -- `DeleteProductUseCase.execute`
  unfoldable pub delete_product :
      String
      → String
      → String
      → ℕ
      → Database
      → Result ProductError (Database × List (ProductEvent d))
  unfolding ensure_tenant the_product
  delete_product id tenant deleted_by now db = do
    ensure_tenant ports tenant
    p ← the_product id tenant db
    p' ← Product_ops.delete deleted_by now p
    db' ← Table.update d ports p' now db
    ok (db', p'.domain_events)
