-- ===== src/Products/Product/Life.antt =====
-- The life of a product: the sequences of calls that succeed, and what a deletion ends.
use komi_saas_api.Base.{ℕ, String, Option, Bool, ◌≡◌, refl, arith}
use komi_saas_api.Base.Throws.{ok}
use komi_saas_api.Shared.Decimal.{Decimal}
use komi_saas_api.Shared.Status.{EntityStatus, is-deleted}
use komi_saas_api.Products.Recipe.{NewIngredient}
use komi_saas_api.Products.Product.{
  Product, ProductData, activate, deactivate, change_status, delete, update, add_ingredient,
  change_ingredient, remove_ingredient,
}

module _ {d : Decimal} where
  -- One call that succeeds.
  pub data Step : Product d → Product d → Type 0 where
    activated : {p q : Product d} (now : ℕ) → activate now p ≡ ok q → Step p q
    deactivated : {p q : Product d} (now : ℕ) → deactivate now p ≡ ok q → Step p q
    status_changed :
        {p q : Product d} (next : EntityStatus) (now : ℕ)
        → change_status next now p ≡ ok q
        → Step p q
    deleted_by : {p q : Product d} (user : String) (now : ℕ) → delete user now p ≡ ok q → Step p q
    updated :
        {p q : Product d} (params : ProductData d) (now : ℕ)
        → update params now p ≡ (ok tt, q)
        → Step p q
    ingredient_added :
        {p q : Product d} (params : NewIngredient d) (id : String) (now : ℕ)
        → add_ingredient params id now p ≡ ok q
        → Step p q
    ingredient_changed :
        {p q : Product d} (item : String) (quantity : Option d.Num) (flag : Option Bool) (now : ℕ)
        → change_ingredient item quantity flag now p ≡ ok q
        → Step p q
    ingredient_removed :
        {p q : Product d} (item : String) (now : ℕ) → remove_ingredient item now p ≡ ok q → Step p q

  pub data Steps : Product d → Product d → Type 0 where
    start : {p : Product d} → Steps p p
    then_step : {p q r : Product d} → Step p q → Steps q r → Steps p r

  -- What the catalogue shows of a product.
  abbrev pub SameOffer : Product d → Product d → Type 0
  SameOffer p q =
      (q.product_name ≡ p.product_name)
      × (q.product_base_price ≡ p.product_base_price)
      × (q.product_cost ≡ p.product_cost)
      × (q.profit_margin ≡ p.profit_margin)

  deleted_step :
      {p q : Product d}
      → Step p q
      → p.status ≡ EntityStatus.deleted
      → (q.status ≡ EntityStatus.deleted) × SameOffer p q
  unfolding activate deactivate change_status delete update add_ingredient change_ingredient
      remove_ingredient
  deleted_step {p} (activated now e) h = ground (arith, is-deleted p.status h)
  deleted_step {p} (deactivated now e) h = ground (arith, is-deleted p.status h)
  deleted_step {p} (status_changed EntityStatus.active now e) h =
      ground (arith, is-deleted p.status h)
  deleted_step {p} (status_changed EntityStatus.inactive now e) h =
      ground (arith, is-deleted p.status h)
  deleted_step {p} (status_changed EntityStatus.archived now e) h = ground arith
  deleted_step {p} (status_changed EntityStatus.deleted now e) h = ground arith
  deleted_step {p} (deleted_by user now e) h = ground (arith, is-deleted p.status h)
  deleted_step {p} (updated params now e) h = ground (arith, is-deleted p.status h)
  deleted_step (ingredient_added params id now e) h = ground arith
  deleted_step (ingredient_changed item quantity flag now e) h = ground arith
  deleted_step (ingredient_removed item now e) h = ground arith

  -- After any calls that succeed, a deleted product is still deleted, and its name, price, cost
  -- and margin are what they were.
  deletion_is_final :
      {p q : Product d}
      → Steps p q
      → p.status ≡ EntityStatus.deleted
      → (q.status ≡ EntityStatus.deleted) × SameOffer p q
  deletion_is_final start h = (h, (refl, refl, refl, refl))
  deletion_is_final (then_step s rest) h =
      let (still, same) = deleted_step s h in
      let (final, same') = deletion_is_final rest still in (final, ground arith)
