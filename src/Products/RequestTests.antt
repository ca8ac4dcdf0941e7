-- ===== src/Products/RequestTests.antt =====
-- The requests on products at a concrete database.
use komi_saas_api.Products.Profitability.{calculate, margin_value, margin_value, calculate}
use komi_saas_api.Products.Product as Product
use komi_saas_api.Base.{none, some, true, [], ◌∷◌, ◌≡◌, ◌≢◌, refl, All, trim, utf16_length, arith}
use komi_saas_api.Base.Throws.{ok}
use komi_saas_api.Shared.Money as Money_ops
use komi_saas_api.Shared.Money.{get_amount}
use komi_saas_api.Shared.Status.{EntityStatus, is}
use komi_saas_api.Inventory.Thousandths.{plain, strokes}
use komi_saas_api.Products.Sku.{from_number, skus_differ}
use komi_saas_api.Products.Table as Table
use komi_saas_api.Products.Table.{ProductRow, Database, Ports, create_name, exists_by_name}
use komi_saas_api.Products.Product.{ProductEvent, product_created}
use komi_saas_api.Products.Requests.{CreateParams, create_product, update_product}
use komi_saas_api.Products.Stored.{start, then_step, created}
use komi_saas_api.Products.Stored.Prices.{OnSale, stored_prices_agree}
use komi_saas_api.Products.Stored.Deleted.Steps.{Rests, deleted_rows_stay}
use komi_saas_api.Products.Tests.{hundredths}

sku_example : from_number 42 ≡ "PROD-0042"
unfolding from_number utf16_length
sku_example = refl

long_sku_example : from_number 123456 ≡ "PROD-123456"
unfolding from_number utf16_length
long_sku_example = refl

skus_differ_example : from_number 9999 ≢ from_number 10000
skus_differ_example = skus_differ 9999 10000 (λ e. absurd (omega arith))

abbrev ports : Ports
ports = record {
  valid_uuid = λ s. true;
  upper_case = λ s. s;
  sql_lower = λ s. s;
  tenant_found = λ s. true;
  category_found = λ tenant category. true;
  accepts = λ row db. true;
}

abbrev tea : CreateParams hundredths
tea = record {
  tenant_id = "t1";
  product_category_id = "c1";
  product_name = " Tea ";
  product_description = none;
  product_img_url = none;
  product_base_price = strokes 10;
  product_cost = strokes 5;
  profit_margin = plain 50;
}

abbrev tea_row : ProductRow
tea_row = record {
  id = "p1";
  tenant_id = "t1";
  product_category_id = "c1";
  name = "Tea";
  description = none;
  base_price = strokes 10;
  cost = strokes 5;
  profit_margin = strokes 50;
  status = EntityStatus.active;
  image_url = none;
  sku = "PROD-0007";
  created_at = 3;
  updated_at = 3;
}

abbrev gone_row : ProductRow
gone_row = record tea_row { id = "p0"; sku = "PROD-0001"; status = EntityStatus.deleted }

abbrev before : Database
before = record { products = gone_row ∷ []; ingredients = [] }

abbrev after : Database
after = record { products = gone_row ∷ tea_row ∷ []; ingredients = [] }

abbrev event : ProductEvent hundredths
event = product_created (record {
  product_id = "p1";
  tenant_id = "t1";
  product_category_id = "c1";
  product_name = "Tea";
  product_description = none;
  product_sku = "PROD-0007";
  product_img_url = none;
  product_base_price = strokes 10;
  cost_currency = "COP";
  profit_margin = plain 50;
  status = EntityStatus.active;
})

-- The name of the deleted product is free.
create_example : create_product ports tea (some 7) "p1" 3 before ≡ ok (after, event ∷ [])
unfolding create_product create_name utf16_length trim exists_by_name is Money_ops.of Product.create
    get_amount calculate margin_value Table.save from_number
create_example = refl

stored_prices_agree_example : All (OnSale hundredths) after.products
unfolding is
stored_prices_agree_example =
    stored_prices_agree hundredths ports
      (then_step (created tea (some 7) "p1" 3 (event ∷ []) refl create_example) start)
      ((λ live. absurd (ground arith)), tt)

gone-Rests : Rests gone_row before.products
gone-Rests = ((tt, tt), refl, refl)

deleted_rows_stay_example : Rests gone_row after.products
deleted_rows_stay_example =
    deleted_rows_stay hundredths ports gone_row
      (then_step (created tea (some 7) "p1" 3 (event ∷ []) refl create_example) start) gone-Rests

-- A product is renamed to the name of another: no one looks at the names.
abbrev coffee_row : ProductRow
coffee_row = record tea_row { id = "p2"; name = "Coffee"; sku = "PROD-0008" }

two_of_one_name :
    update_product {d = hundredths} ports
      (record {
        id = "p2";
        tenant_id = "t1";
        product_category_id = none;
        product_name = some "Tea";
        product_description = none;
        product_img_url = none;
        product_base_price = none;
        product_cost = none;
        profit_margin = none;
        status = none;
      })
      9
      (record { products = tea_row ∷ coffee_row ∷ []; ingredients = [] })
    ≡ ok (record {
      products = tea_row ∷ record coffee_row { name = "Tea"; updated_at = 9 } ∷ [];
      ingredients = [];
    })
unfolding update_product Table.find_by_id is utf16_length trim Money_ops.of margin_value
    Product.update get_amount calculate Table.update
two_of_one_name = refl
