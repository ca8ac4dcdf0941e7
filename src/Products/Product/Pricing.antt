-- ===== src/Products/Product/Pricing.antt =====
-- The price of a product agrees with its cost and its margin.
use komi_saas_api.Base.{
  ℕ, String, some, false, [], ◌≡◌, arith, str_eq, Option-cases, inl, inr, ◌||◌, eq_iff,
}
use komi_saas_api.Base.Throws.{ok}
use komi_saas_api.Shared.Decimal.{Decimal}
use komi_saas_api.Shared.Money.{get_amount}
use komi_saas_api.Shared.Status.{EntityStatus}
use komi_saas_api.Products.Profitability.{round, margin_of, margin_value, calculate}
use komi_saas_api.Products.Product.{
  Product, ProductData, create, activate, deactivate, change_status, delete, update, add_ingredient,
  change_ingredient, remove_ingredient, ensure_pricing_is_consistent, with_data,
}
use komi_saas_api.Products.Product.Life.{
  Step, activated, deactivated, status_changed, deleted_by, updated, ingredient_added,
  ingredient_changed, ingredient_removed, Steps, start, then_step,
}

module _ {d : Decimal} where
  -- The price is not 0.00, and the margin that it leaves over the cost is the stored margin to two
  -- decimal places, which is from 0 to less than 100; all three as they are written.
  pub record IsPriced (p : Product d) : Type 0 where
    pub cost : d.Num
    pub price : d.Num
    pub margin : d.Num
    pub cost_read : d.parse (get_amount d p.product_cost) ≡ some cost
    pub price_read : d.parse (get_amount d p.product_base_price) ≡ some price
    pub margin_read : d.parse (margin_value d p.profit_margin) ≡ some margin
    pub not_free : str_eq (get_amount d p.product_base_price) "0.00" ≡ false
    pub margin_in_range :
        d.is_negative margin || d.greater_than_or_equal_to margin d.hundred ≡ false
    pub agree : round d (margin_of d cost price) ≡ round d margin

  -- What `create` checks, before the event is registered.
  abbrev unborn : String → String → ProductData d → String → ℕ → Product d
  unborn tenant sku params id now = record {
    id = id;
    tenant_id = tenant;
    product_category_id = params.product_category_id;
    product_name = params.product_name;
    product_description = params.product_description;
    product_sku = sku;
    product_img_url = params.product_img_url;
    product_base_price = params.product_base_price;
    product_cost = params.product_cost;
    profit_margin = params.profit_margin;
    status = EntityStatus.active;
    ingredients = [];
    created_at = now;
    updated_at = now;
    domain_events = [];
  }

  ensured : (p : Product d) → ensure_pricing_is_consistent p ≡ ok tt → IsPriced p
  unfolding ensure_pricing_is_consistent calculate
  ensured p e = elim (Option-cases (d.parse (get_amount d p.product_cost))) [
    | inl bad ↦ absurd (ground arith)
    | inr (cost, ec) ↦ elim (Option-cases (d.parse (get_amount d p.product_base_price))) [
      | inl bad ↦ absurd (ground arith)
      | inr (price, ep) ↦ elim (Option-cases (d.parse (margin_value d p.profit_margin))) [
        | inl bad ↦ absurd (ground arith)
        | inr (margin, em) ↦ record {
          cost = cost;
          price = price;
          margin = margin;
          cost_read = ec;
          price_read = ep;
          margin_read = em;
          not_free = ground arith;
          margin_in_range = ground arith;
          agree = ground (arith, eq_iff (round d (margin_of d cost price)) (round d margin));
        }
      ]
    ]
  ]

  -- The fields that the price depends on are those of `p`.
  same_price :
      {p q : Product d}
      → q.product_cost ≡ p.product_cost
      → q.product_base_price ≡ p.product_base_price
      → q.profit_margin ≡ p.profit_margin
      → IsPriced p
      → IsPriced q
  same_price {p} {q} ec ep em h = record {
    cost = h.cost;
    price = h.price;
    margin = h.margin;
    cost_read = rw ec h.cost_read;
    price_read = rw ep h.price_read;
    margin_read = rw em h.margin_read;
    not_free = rw ep h.not_free;
    margin_in_range = h.margin_in_range;
    agree = h.agree;
  }

  pub updated-IsPriced :
      (p q : Product d) (params : ProductData d) (now : ℕ)
      → update params now p ≡ (ok tt, q)
      → IsPriced q
  unfolding update
  updated-IsPriced p q params now e =
      same_price {p = with_data params p} (ground arith) (ground arith) (ground arith)
        (ensured (with_data params p) (ground arith))

  pub step-IsPriced : {p q : Product d} → Step p q → IsPriced p → IsPriced q
  unfolding activate deactivate change_status delete add_ingredient change_ingredient
      remove_ingredient
  step-IsPriced (activated now e) h = same_price (ground arith) (ground arith) (ground arith) h
  step-IsPriced (deactivated now e) h = same_price (ground arith) (ground arith) (ground arith) h
  step-IsPriced (status_changed EntityStatus.active now e) h =
      same_price (ground arith) (ground arith) (ground arith) h
  step-IsPriced (status_changed EntityStatus.inactive now e) h =
      same_price (ground arith) (ground arith) (ground arith) h
  step-IsPriced (status_changed EntityStatus.archived now e) h =
      same_price (ground arith) (ground arith) (ground arith) h
  step-IsPriced (status_changed EntityStatus.deleted now e) h =
      same_price (ground arith) (ground arith) (ground arith) h
  step-IsPriced (deleted_by user now e) h =
      same_price (ground arith) (ground arith) (ground arith) h
  step-IsPriced {p} {q} (updated params now e) h = updated-IsPriced p q params now e
  step-IsPriced (ingredient_added params id now e) h =
      same_price (ground arith) (ground arith) (ground arith) h
  step-IsPriced (ingredient_changed item quantity flag now e) h =
      same_price (ground arith) (ground arith) (ground arith) h
  step-IsPriced (ingredient_removed item now e) h =
      same_price (ground arith) (ground arith) (ground arith) h

  steps-IsPriced : {p q : Product d} → Steps p q → IsPriced p → IsPriced q
  steps-IsPriced start h = h
  steps-IsPriced (then_step s rest) h = steps-IsPriced rest (step-IsPriced s h)

  -- A product that was created, after any calls that succeed, has a price that is not written
  -- 0.00, a margin from 0 to less than 100, and a price that leaves that margin over its cost to
  -- two decimals.
  pub price_agrees :
      (tenant sku : String) (params : ProductData d) (id : String) (now : ℕ) {p q : Product d}
      → create tenant sku params id now ≡ ok p
      → Steps p q
      → IsPriced q
  unfolding create
  price_agrees tenant sku params id now {p} e rest = steps-IsPriced rest (
      same_price {p = unborn tenant sku params id now} (ground arith) (ground arith) (ground arith)
        (ensured (unborn tenant sku params id now) (ground arith)))
