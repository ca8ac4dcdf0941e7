-- ===== src/Products/Tests.antt =====
-- Products with concrete prices.
use komi_saas_api.Base.{◌*◌, ◌/◌, none, false, [], ◌∷◌, ◌≡◌, refl}
use komi_saas_api.Base.Throws.{ok}
use komi_saas_api.Shared.Decimal.{Decimal}
use komi_saas_api.Shared.Money.{Money, get_amount}
use komi_saas_api.Shared.Quantity
use komi_saas_api.Shared.Status.{EntityStatus, is, can_transition_to, transition_to}
use komi_saas_api.Inventory.Thousandths.{plain, thousandths, size}
use komi_saas_api.Products.Recipe as Recipe_ops
use komi_saas_api.Products.Recipe.{NewIngredient, Ingredient}
use komi_saas_api.Products.Profitability.{
  round, margin_of, margin_value, price_for_margin, assert_valid_margin,
  assert_price_matches_margin, from_price, calculate,
}
use komi_saas_api.Products.Product.{
  Product, ProductData, product_created, create, deactivate, add_ingredient, touch,
  ensure_pricing_is_consistent, ensure_not_deleted,
}

-- Quotients in whole hundredths.
abbrev pub hundredths : Decimal
hundredths = record thousandths {
  divided_by = λ a b. plain (size a * 100 / size b);
  times = λ a b. a;
}

abbrev pesos : Money hundredths
pesos = record { amount = plain 10; currency = "COP" }

abbrev half : Money hundredths
half = record { amount = plain 5; currency = "COP" }

abbrev coffee_data : ProductData hundredths
coffee_data = record {
  product_category_id = "c1";
  product_name = "Coffee";
  product_description = none;
  product_img_url = none;
  product_base_price = pesos;
  product_cost = half;
  profit_margin = plain 50;
}

abbrev coffee : Product hundredths
coffee = record {
  id = "p1";
  tenant_id = "t1";
  product_category_id = "c1";
  product_name = "Coffee";
  product_description = none;
  product_sku = "PROD-0001";
  product_img_url = none;
  product_base_price = pesos;
  product_cost = half;
  profit_margin = plain 50;
  status = EntityStatus.active;
  ingredients = [];
  created_at = 7;
  updated_at = 7;
  domain_events =
      product_created (record {
        product_id = "p1";
        tenant_id = "t1";
        product_category_id = "c1";
        product_name = "Coffee";
        product_description = none;
        product_sku = "PROD-0001";
        product_img_url = none;
        product_base_price = get_amount hundredths pesos;
        cost_currency = "COP";
        profit_margin = plain 50;
        status = EntityStatus.active;
      })
      ∷ [];
}

is_created : create "t1" "PROD-0001" coffee_data "p1" 7 ≡ ok coffee
unfolding create ensure_pricing_is_consistent calculate assert_valid_margin
    assert_price_matches_margin from_price price_for_margin round margin_of margin_value get_amount
is_created = refl

abbrev off : Product hundredths
off = record coffee { status = EntityStatus.inactive; updated_at = 8 }

is_off : deactivate 8 coffee ≡ ok off
unfolding deactivate ensure_not_deleted touch is transition_to can_transition_to
is_off = refl

abbrev gone : Product hundredths
gone = record coffee { status = EntityStatus.deleted }

abbrev beans : NewIngredient hundredths
beans = record { inventory_item_id = "i1"; quantity = plain 2; is_optional = false }

abbrev still_gone : Product hundredths
still_gone = record gone {
  ingredients =
      record { id = "g1"; inventory_item_id = "i1"; quantity = plain 2; is_optional = false } ∷ [];
  updated_at = 9;
}

is_added : add_ingredient beans "g1" 9 gone ≡ ok still_gone
unfolding add_ingredient touch Recipe_ops.create Quantity.is_zero
is_added = refl
