-- ===== src/Inventory/Stock/Refusals.antt =====
-- When consuming is refused.
use komi_saas_api.Base.{ℕ, ◌≤◌, ◌<◌, true, false, ◌≡◌, arith, length}
use komi_saas_api.Base.Throws.{err}
use komi_saas_api.Shared.Failure.{insufficient_stock, ambiguous_branch_scope}
use komi_saas_api.Shared.Decimal.{Decimal, DecimalLaws, limit}
use komi_saas_api.Shared.Quantity
use komi_saas_api.Shared.Quantity.{difference}
use komi_saas_api.Shared.Quantity.Exact.{is_zero_lem, is_greater_than_lem}
use komi_saas_api.Inventory.Item.{Item}
use komi_saas_api.Inventory.Drain.Amounts.{stock}
use komi_saas_api.Inventory.Drain.Shrink.{AllFit}
use komi_saas_api.Inventory.Stock.{active_at, current_stock, active_branches, consume}
use komi_saas_api.Inventory.Stock.Value.{current_stock_lem}

module _ {d : Decimal} (l : DecimalLaws d) where
  open l use {Fits, milli}

  -- With active batches in at most one branch and quantities within the precision, consuming more
  -- than the active stock is refused with what was asked and what there is.
  consume_refuses :
      (quantity : d.Num) (date touched : ℕ) (item : Item d)
      → AllFit l item.batches
      → stock l (active_at date) item.batches < limit
      → Fits quantity
      → stock l (active_at date) item.batches < milli quantity
      → length (active_branches date item) ≤ 1
      → consume {d = d} quantity date touched item
        ≡ err (
            insufficient_stock item.id
              (Quantity.get_value d quantity)
              (Quantity.get_value d (current_stock date item)))
  unfolding consume
  consume_refuses quantity date touched item fit small fq more one =
      let (stock_fits, stock_value) = current_stock_lem l date item fit small in
      let z : Quantity.is_zero d quantity ≡ false = ground (arith, is_zero_lem l quantity fq) in
      let g : Quantity.is_greater_than d quantity (current_stock date item) ≡ true = ground (
        arith,
        is_greater_than_lem l quantity (current_stock date item) fq stock_fits,
        stock_value,
      ) in
      ground arith

  -- Where active batches lie in more than one branch, nothing is consumed.
  pub consume_ambiguous :
      (quantity : d.Num) (date touched : ℕ) (item : Item d)
      → 1 < length (active_branches date item)
      → consume {d = d} quantity date touched item ≡ err (ambiguous_branch_scope item.id)
  unfolding consume
  consume_ambiguous quantity date touched item many = ground arith
