-- ===== src/Inventory/Stock.antt =====
-- The stock of an item: what it holds, and the methods that take from it
-- (src/context/inventory/domain/inventory-item.aggregate.ts).
pub mod Consumption
pub mod Expiry
pub mod Losses
pub mod Refusals
pub mod Value
use komi_saas_api.Base.{
  ℕ, String, Option, none, some, Bool, true, false, not, ◌&&◌, List, [], ◌∷◌, ◌++◌, map, filter,
  any, length, ltb, str_eq, trim, is_empty, if◌then◌else◌,
}
use komi_saas_api.Base.Throws.{Result, ok, err, ◌>>=◌, ◌>>◌, throw_if}
use komi_saas_api.Shared.Failure.{
  Failure, non_positive_consumption, insufficient_stock, reason_required, no_adjustment_difference,
  count_increase_not_allowed, ambiguous_branch_scope,
}
use komi_saas_api.Shared.Decimal.{Decimal}
use komi_saas_api.Shared.Quantity
use komi_saas_api.Shared.Money.{Money}
use komi_saas_api.Shared.Money as Money_ops
use komi_saas_api.Inventory.Batch as Batch_ops
use komi_saas_api.Inventory.Batch.{Batch}
use komi_saas_api.Inventory.Event.{Event, BatchDetail, stock_consumed, stock_wasted, stock_adjusted}
use komi_saas_api.Inventory.Drain.{sort, drain, adjust_down}
use komi_saas_api.Inventory.Item.{Item, touch, register_event}

-- The elements of a `Set` in the order in which they were added.
unfoldable pub add_new : String → List String → List String
add_new i seen = if any (str_eq i) seen then seen else seen ++ (i ∷ [])

unfoldable pub distinct_from : List String → List String → List String
unfolding add_new
distinct_from seen [] = seen
distinct_from seen (i ∷ is) = distinct_from (add_new i seen) is

-- `const [scopeBranchId] = activeBranches`
abbrev pub first_of : List String → Option String
first_of [] = none
first_of (i ∷ _) = some i

-- `DEFAULT_CURRENCY`
abbrev pub default_currency : String
default_currency = "COP"

module _ {d : Decimal} where
  abbrev pub active_at : ℕ → Batch d → Bool
  active_at date b = Batch_ops.is_active b date

  abbrev pub active_in : String → ℕ → Batch d → Bool
  active_in branch date b = str_eq b.branch_id branch && Batch_ops.is_active b date

  -- `reduce((total, batch) => total.add(batch.getRemaining()), …)`
  unfoldable pub sum_remaining : d.Num → List (Batch d) → d.Num
  sum_remaining acc [] = acc
  sum_remaining acc (b ∷ bs) = sum_remaining (Quantity.add d acc b.quantity_remaining) bs

  unfoldable pub current_stock : ℕ → Item d → d.Num
  unfolding sum_remaining
  current_stock date item = sum_remaining (Quantity.zero d) (filter (active_at date) item.batches)

  unfoldable pub current_stock_for_branch : String → ℕ → Item d → d.Num
  unfolding sum_remaining
  current_stock_for_branch branch date item =
      sum_remaining (Quantity.zero d) (filter (active_in branch date) item.batches)

  unfoldable pub activate_batches_of_branch : String → ℕ → Item d → List (Batch d)
  activate_batches_of_branch branch date item = filter (active_in branch date) item.batches

  unfoldable pub active_branches : ℕ → Item d → List String
  unfolding distinct_from
  active_branches date item =
      distinct_from [] (map (λ b. b.branch_id) (filter (active_at date) item.batches))

  -- The event is registered where there is a branch to name.
  abbrev pub tell : Option String → (String → Event) → Item d → Item d
  tell none event item = item
  tell (some branch) event item = register_event (event branch) item

  unfoldable pub consume : d.Num → ℕ → ℕ → Item d → Result Failure (Item d)
  unfolding register_event touch
  consume quantity date touched item = do
    throw_if (ltb 1 (length (active_branches date item))) (ambiguous_branch_scope item.id)
    throw_if (Quantity.is_zero d quantity) non_positive_consumption
    let available = current_stock date item
    throw_if (Quantity.is_greater_than d quantity available) (
        insufficient_stock item.id (Quantity.get_value d quantity) (Quantity.get_value d available))
    (batches, _, consumed_batches) ←
        drain Batch_ops.consume quantity (sort (filter (active_at date) item.batches)) item.batches
    ok (
        touch touched (
          tell (first_of (active_branches date item))
            (λ branch. stock_consumed (record {
              item_id = item.id;
              tenant_id = item.tenant_id;
              branch_id = branch;
              quantity = Quantity.get_value d quantity;
              consumed_batches = consumed_batches;
              occurred_on = date;
            }))
            (record item { batches = batches })))

  unfoldable pub register_waste : String → d.Num → String → ℕ → ℕ → Item d → Result Failure (Item d)
  unfolding register_event touch activate_batches_of_branch
  register_waste branch quantity text occurred_on touched item = do
    let reason = trim text
    throw_if (is_empty reason) (reason_required "merma")
    throw_if (Quantity.is_zero d quantity) non_positive_consumption
    let available = current_stock_for_branch branch occurred_on item
    throw_if (Quantity.is_greater_than d quantity available) (
        insufficient_stock item.id (Quantity.get_value d quantity) (Quantity.get_value d available))
    (batches, _, wasted_batches) ←
        drain Batch_ops.waste quantity (sort (activate_batches_of_branch branch occurred_on item))
          item.batches
    ok (
        touch touched (
          register_event
            (stock_wasted (record {
              item_id = item.id;
              tenant_id = item.tenant_id;
              branch_id = branch;
              reason = reason;
              reduced_batches = wasted_batches;
              occurred_on = occurred_on;
            }))
            (record item { batches = batches })))

  unfoldable pub count_stock : String → d.Num → String → ℕ → ℕ → Item d → Result Failure (Item d)
  unfolding register_event touch activate_batches_of_branch
  count_stock branch actual_total text occurred_on touched item = do
    let reason = trim text
    throw_if (is_empty reason) (reason_required "conteo")
    let current = current_stock_for_branch branch occurred_on item
    throw_if (Quantity.is_greater_than d actual_total current) (count_increase_not_allowed item.id)
    throw_if (not (Quantity.is_greater_than d current actual_total))
        (no_adjustment_difference branch)
    missing ← Quantity.subtract d current actual_total
    (batches, _, adjusted_batches) ←
        drain adjust_down missing (sort (activate_batches_of_branch branch occurred_on item))
          item.batches
    ok (
        touch touched (
          register_event
            (stock_adjusted (record {
              item_id = item.id;
              tenant_id = item.tenant_id;
              branch_id = branch;
              reason = reason;
              reduced_batches = adjusted_batches;
              occurred_on = occurred_on;
            }))
            (record item { batches = batches })))

  -- The loop of `weightedAverageCost`.
  unfoldable pub value_of : Money d → d.Num → List (Batch d) → Result Failure (Money d × d.Num)
  value_of value quantity [] = ok (value, quantity)
  value_of value quantity (b ∷ bs) = Batch_ops.remaining_cost b >>= λ cost.
      Money_ops.add d value cost >>= λ value'.
      value_of value' (Quantity.add d quantity b.quantity_remaining) bs

  abbrev pub average : Money d × d.Num → Result Failure (Option (Money d))
  average (value, quantity) = if Quantity.is_zero d quantity then ok none else (do
    divisor ← Money_ops.parsed d (d.parse (Quantity.get_value d quantity))
    cost ← Money_ops.divide d value divisor
    ok (some cost))

  abbrev pub average_of : (String → String) → List (Batch d) → Result Failure (Option (Money d))
  average_of upper_case [] = ok none
  average_of upper_case (b ∷ bs) = do
    nothing ← Money_ops.of d upper_case "0" default_currency
    totals ← value_of nothing (Quantity.zero d) (b ∷ bs)
    average totals

  unfoldable pub weighted_average_cost :
      (String → String) → ℕ → Item d → Result Failure (Option (Money d))
  unfolding value_of
  weighted_average_cost upper_case date item =
      average_of upper_case (filter (active_at date) item.batches)
