-- ===== src/Products/Failure.antt =====
-- The exceptions of products (src/context/products/domain/exceptions and recipe/exceptions), with what
-- they name.
use komi_saas_api.Base.{String}
use komi_saas_api.Base.Throws.{Result, ok, err}
use komi_saas_api.Shared.Failure as Shared_failure
use komi_saas_api.Shared.Status.{StatusError}

pub data ProductError : Type 0 where
  -- recipe/exceptions
  duplicate_ingredient ingredient_not_in_recipe : String → ProductError
  non_positive_ingredient : ProductError
  -- product-exception.ts
  invalid_target_margin invalid_profit_margin : ProductError
  price_margin_mismatch : String → String → String → ProductError
  invalid_product_name : String → ProductError
  already_activated already_deactivated not_modified : ProductError
  product_deleted product_not_found tenant_not_found : String → ProductError
  category_not_found name_already_exists : String → ProductError
  sku_not_generated : ProductError
  -- the shared identifier
  invalid_uuid : String → ProductError
  -- what the database throws
  not_stored : ProductError
  -- what `new Decimal` throws on a text that is no number
  not_a_number : ProductError
  of_status : StatusError → ProductError
  of_shared : Shared_failure.Failure → ProductError

abbrev pub lift_status : {A : Type 0} → Result StatusError A → Result ProductError A
lift_status (ok a) = ok a
lift_status (err e) = err (ProductError.of_status e)

abbrev pub lift_shared : {A : Type 0} → Result Shared_failure.Failure A → Result ProductError A
lift_shared (ok a) = ok a
lift_shared (err e) = err (ProductError.of_shared e)
