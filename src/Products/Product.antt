-- ===== src/Products/Product.antt =====
-- The product (src/context/products/domain/product.aggregate.ts). A method that may throw after it has
-- written returns the product too, as it is left in memory. Clock readings and UUIDs are arguments.
pub mod Life
pub mod Pricing
use komi_saas_api.Base.{
  ℕ, String, Option, some, Bool, true, false, List, [], ◌∷◌, ◌++◌, any, str_eq, if◌then◌else◌,
}
use komi_saas_api.Base.Throws.{Result, ok, err, ◌>>=◌, ◌>>◌, throw_if}
use komi_saas_api.Shared.Failure as Shared_failure
use komi_saas_api.Shared.Decimal.{Decimal}
use komi_saas_api.Shared.Money.{Money, get_amount}
use komi_saas_api.Shared.Status.{EntityStatus, is, transition_to}
use komi_saas_api.Products.Failure.{
  ProductError, duplicate_ingredient, ingredient_not_in_recipe, already_activated,
  already_deactivated, product_deleted, of_shared, lift_status,
}
use komi_saas_api.Products.Profitability.{calculate, margin_value}
use komi_saas_api.Products.Recipe as Recipe_ops
use komi_saas_api.Products.Recipe.{Ingredient, NewIngredient}

-- `ProductCreatedEvent`, whose margin is the value object.
pub record ProductCreated (d : Decimal) : Type 0 where
  pub product_id : String
  pub tenant_id : String
  pub product_category_id : String
  pub product_name : String
  pub product_description : Option String
  pub product_sku : String
  pub product_img_url : Option String
  pub product_base_price : String
  pub cost_currency : String
  pub profit_margin : d.Num
  pub status : EntityStatus

pub data ProductEvent (d : Decimal) : Type 0 where
  product_created : ProductCreated d → ProductEvent d
  -- the tenant, the product and who deleted it
  product_removed : String → String → String → ProductEvent d

pub record Product (d : Decimal) : Type 0 where
  pub id : String
  pub tenant_id : String
  pub product_category_id : String
  pub product_name : String
  pub product_description : Option String
  pub product_sku : String
  pub product_img_url : Option String
  pub product_base_price : Money d
  pub product_cost : Money d
  pub profit_margin : d.Num
  pub status : EntityStatus
  pub ingredients : List (Ingredient d)
  pub created_at : ℕ
  pub updated_at : ℕ
  pub domain_events : List (ProductEvent d)

-- The parameters of `update`, which are those of `create` but for the tenant and the SKU.
pub record ProductData (d : Decimal) : Type 0 where
  pub product_category_id : String
  pub product_name : String
  pub product_description : Option String
  pub product_img_url : Option String
  pub product_base_price : Money d
  pub product_cost : Money d
  pub profit_margin : d.Num

abbrev pub ignore {ℓ} : {E : Type 0} {A : Type ℓ} → Result E A → Result E (Unit {0})
ignore (ok _) = ok tt
ignore (err e) = err e

module _ {d : Decimal} where
  unfoldable pub touch : ℕ → Product d → Product d
  touch date p = record p { updated_at = date }

  unfoldable pub ensure_pricing_is_consistent : Product d → Result ProductError (Unit {0})
  ensure_pricing_is_consistent p = do
    throw_if (str_eq (get_amount d p.product_base_price) "0.00")
        (of_shared Shared_failure.base_price)
    ignore (
        calculate d (record {
          cost = get_amount d p.product_cost;
          price = some (get_amount d p.product_base_price);
          target_margin = some (margin_value d p.profit_margin);
        }))

  unfoldable pub ensure_not_deleted : Product d → Result ProductError (Unit {0})
  ensure_not_deleted p = throw_if (is EntityStatus.deleted p.status) (product_deleted p.id)

  unfoldable pub create :
      String → String → ProductData d → String → ℕ → Result ProductError (Product d)
  unfolding ensure_pricing_is_consistent
  create tenant_id product_sku params id now = do
    let p : Product d = record {
      id = id;
      tenant_id = tenant_id;
      product_category_id = params.product_category_id;
      product_name = params.product_name;
      product_description = params.product_description;
      product_sku = product_sku;
      product_img_url = params.product_img_url;
      product_base_price = params.product_base_price;
      product_cost = params.product_cost;
      profit_margin = params.profit_margin;
      status = EntityStatus.active;
      ingredients = [];
      created_at = now;
      updated_at = now;
      domain_events = [];
    }
    ensure_pricing_is_consistent p
    ok (record p {
      domain_events =
          product_created (record {
            product_id = id;
            tenant_id = tenant_id;
            product_category_id = params.product_category_id;
            product_name = params.product_name;
            product_description = params.product_description;
            product_sku = product_sku;
            product_img_url = params.product_img_url;
            product_base_price = get_amount d params.product_base_price;
            cost_currency = params.product_base_price.currency;
            profit_margin = params.profit_margin;
            status = EntityStatus.active;
          })
          ∷ [];
    })

  unfoldable pub deactivate : ℕ → Product d → Result ProductError (Product d)
  unfolding ensure_not_deleted touch
  deactivate now p = do
    ensure_not_deleted p
    throw_if (is EntityStatus.inactive p.status) already_deactivated
    status ← lift_status (transition_to p.status EntityStatus.inactive)
    ok (touch now (record p { status = status }))

  unfoldable pub activate : ℕ → Product d → Result ProductError (Product d)
  unfolding ensure_not_deleted touch
  activate now p = do
    ensure_not_deleted p
    throw_if (is EntityStatus.active p.status) already_activated
    status ← lift_status (transition_to p.status EntityStatus.active)
    ok (touch now (record p { status = status }))

  -- The last line of `changeStatus` drops what `transitionTo` returns.
  unfoldable pub change_status : EntityStatus → ℕ → Product d → Result ProductError (Product d)
  unfolding activate deactivate
  change_status EntityStatus.active now p = activate now p
  change_status EntityStatus.inactive now p = deactivate now p
  change_status EntityStatus.archived now p =
      lift_status (transition_to p.status EntityStatus.archived) >>= λ _. ok p
  change_status EntityStatus.deleted now p =
      lift_status (transition_to p.status EntityStatus.deleted) >>= λ _. ok p

  unfoldable pub delete : String → ℕ → Product d → Result ProductError (Product d)
  unfolding ensure_not_deleted touch
  delete deleted_by now p = do
    ensure_not_deleted p
    status ← lift_status (transition_to p.status EntityStatus.deleted)
    ok (record (touch now (record p { status = status })) {
      domain_events = p.domain_events ++ (product_removed p.tenant_id p.id deleted_by ∷ []);
    })

  abbrev pub with_data : ProductData d → Product d → Product d
  with_data params p = record p {
    product_category_id = params.product_category_id;
    product_name = params.product_name;
    product_description = params.product_description;
    product_img_url = params.product_img_url;
    product_base_price = params.product_base_price;
    product_cost = params.product_cost;
    profit_margin = params.profit_margin;
  }

  abbrev pub finish_update :
      ℕ → Product d → Result ProductError (Unit {0}) → Result ProductError (Unit {0}) × Product d
  finish_update now p (err e) = (err e, p)
  finish_update now p (ok _) = (ok tt, touch now p)

  -- The fields are written before the prices are checked.
  unfoldable pub update : ProductData d → ℕ → Product d → Result ProductError (Unit {0}) × Product d
  unfolding touch ensure_pricing_is_consistent
  update params now p =
      if is EntityStatus.deleted p.status
      then (err (product_deleted p.id), p)
      else finish_update now (with_data params p)
          (ensure_pricing_is_consistent (with_data params p))

  abbrev pub of_item : String → Ingredient d → Bool
  of_item item ingredient = str_eq ingredient.inventory_item_id item

  unfoldable pub add_ingredient :
      NewIngredient d → String → ℕ → Product d → Result ProductError (Product d)
  unfolding touch
  add_ingredient params id now p = do
    throw_if (any (of_item params.inventory_item_id) p.ingredients)
        (duplicate_ingredient params.inventory_item_id)
    ingredient ← Recipe_ops.create params id
    ok (touch now (record p { ingredients = p.ingredients ++ (ingredient ∷ []) }))

  -- The change of the first ingredient of an item, in place.
  unfoldable pub change_in :
      String
      → Option d.Num
      → Option Bool
      → List (Ingredient d)
      → Result ProductError (List (Ingredient d))
  change_in item quantity is_optional [] = err (ingredient_not_in_recipe item)
  change_in item quantity is_optional (c ∷ cs) = elim (of_item item c) [
    | true ↦ Recipe_ops.change quantity is_optional c >>= λ c'. ok (c' ∷ cs)
    | false ↦ change_in item quantity is_optional cs >>= λ cs'. ok (c ∷ cs')
  ]

  unfoldable pub change_ingredient :
      String → Option d.Num → Option Bool → ℕ → Product d → Result ProductError (Product d)
  unfolding touch change_in
  change_ingredient item quantity is_optional now p = do
    ingredients ← change_in item quantity is_optional p.ingredients
    ok (touch now (record p { ingredients = ingredients }))

  -- `splice(index, 1)` at the first ingredient of an item.
  unfoldable pub remove_from :
      String → List (Ingredient d) → Result ProductError (List (Ingredient d))
  remove_from item [] = err (ingredient_not_in_recipe item)
  remove_from item (c ∷ cs) = elim (of_item item c) [
    | true ↦ ok cs
    | false ↦ remove_from item cs >>= λ cs'. ok (c ∷ cs')
  ]

  unfoldable pub remove_ingredient : String → ℕ → Product d → Result ProductError (Product d)
  unfolding touch remove_from
  remove_ingredient item now p = do
    ingredients ← remove_from item p.ingredients
    ok (touch now (record p { ingredients = ingredients }))
