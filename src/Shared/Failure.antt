-- ===== src/Shared/Failure.antt =====
-- The exceptions of the shared value objects and of the inventory's domain
-- (src/shared/value-object, src/context/inventory/domain/exceptions), with what they name.
use komi_saas_api.Base.{String}

pub data Failure : Type 0 where
  -- src/shared
  invalid_quantity invalid_money base_price : Failure
  currency_mismatch : String → String → Failure
  -- inventory-item.exceptions, inventory-batch.exceptions
  inactive_item perishable_requires_expiration : String → Failure
  empty_batch insufficient_batch_quantity : Failure
  -- stock-movement.exceptions
  non_positive_consumption : Failure
  insufficient_stock : String → String → String → Failure
  reason_required no_adjustment_difference count_increase_not_allowed : String → Failure
  -- branch-scope.exceptions
  ambiguous_branch_scope duplicate_branch_in_batch : String → Failure
  -- update-item.exceptions
  unit_change_not_allowed perishability_change_not_allowed empty_update : String → Failure
  -- the plain `Error` of `activate` and `desactivate`
  already_active already_inactive : Failure
