-- ===== src/Inventory/Stock/Losses.antt =====
-- Waste and the physical count.
use komi_saas_api.Base.{
  ℕ, ◌-◌, ◌≤◌, ◌<◌, String, true, false, List, [], ◌∷◌, ◌++◌, filter, ◌≡◌, refl, arith, is_empty,
  trim, ltb, ap, ◌∙◌, if◌then◌else◌,
}
use komi_saas_api.Base.Throws.{ok, err}
use komi_saas_api.Shared.Failure.{no_adjustment_difference, count_increase_not_allowed}
use komi_saas_api.Shared.Decimal.{Decimal, DecimalLaws, limit}
use komi_saas_api.Shared.Quantity
use komi_saas_api.Shared.Quantity.{difference}
use komi_saas_api.Shared.Quantity.Exact.{
  is_zero_lem, is_greater_than_lem, subtract-ok, difference_fits, difference_milli,
}
use komi_saas_api.Inventory.Batch as Batch_ops
use komi_saas_api.Inventory.Batch.{Batch}
use komi_saas_api.Inventory.Event.{Event, BatchDetail, stock_wasted, stock_adjusted}
use komi_saas_api.Inventory.Item.{Item}
use komi_saas_api.Inventory.Drain.{sort, drain, adjust_down}
use komi_saas_api.Inventory.Drain.Order.{UniqueIds}
use komi_saas_api.Inventory.Drain.Amounts.{stock}
use komi_saas_api.Inventory.Drain.Shrink.{AllFit, picks}
use komi_saas_api.Inventory.Stock.{active_in, current_stock_for_branch, register_waste, count_stock}
use komi_saas_api.Inventory.Stock.Value.{
  usable_in, usable_in-IsSteady, counts_usable_in, active_usable_in, current_stock_for_branch_lem,
}
use komi_saas_api.Inventory.Stock.Consumption.{
  waste-IsReduction, adjust_down-IsReduction, run_over_sorted, Took,
}

module _ {d : Decimal} (l : DecimalLaws d) (branch text : String) (date touched : ℕ)
    (item : Item d) where
  open l use {Fits, milli}

  -- The item after a loss that the event tells.
  abbrev after_loss : Event → List (Batch d) → Item d
  after_loss event batches = record item {
    batches = batches;
    updated_at = touched;
    domain_events = item.domain_events ++ (event ∷ []);
  }

  abbrev pub waste_event : List BatchDetail → Event
  waste_event details = stock_wasted (record {
    item_id = item.id;
    tenant_id = item.tenant_id;
    branch_id = branch;
    reason = trim text;
    reduced_batches = details;
    occurred_on = date;
  })

  abbrev pub count_event : List BatchDetail → Event
  count_event details = stock_adjusted (record {
    item_id = item.id;
    tenant_id = item.tenant_id;
    branch_id = branch;
    reason = trim text;
    reduced_batches = details;
    occurred_on = date;
  })

  waste_run :
      (quantity left : d.Num) (batches' : List (Batch d)) (details : List BatchDetail)
      → is_empty (trim text) ≡ false
      → Quantity.is_zero d quantity ≡ false
      → Quantity.is_greater_than d quantity (current_stock_for_branch branch date item) ≡ false
      → drain {d = d} Batch_ops.waste quantity
          (sort (filter (active_in branch date) item.batches))
          item.batches
        ≡ ok (batches', left, details)
      → register_waste {d = d} branch quantity text date touched item
        ≡ ok (after_loss (waste_event details) batches')
  unfolding register_waste
  waste_run quantity left batches' details reasoned z g run = ground arith

  count_run :
      (actual missing left : d.Num) (batches' : List (Batch d)) (details : List BatchDetail)
      → is_empty (trim text) ≡ false
      → Quantity.is_greater_than d actual (current_stock_for_branch branch date item) ≡ false
      → Quantity.is_greater_than d (current_stock_for_branch branch date item) actual ≡ true
      → Quantity.subtract d (current_stock_for_branch branch date item) actual ≡ ok missing
      → drain {d = d} adjust_down missing
          (sort (filter (active_in branch date) item.batches))
          item.batches
        ≡ ok (batches', left, details)
      → count_stock {d = d} branch actual text date touched item
        ≡ ok (after_loss (count_event details) batches')
  unfolding count_stock
  count_run actual missing left batches' details reasoned g g' s run = ground arith

  module _ (fit : AllFit l item.batches)
      (small : stock l (active_in branch date) item.batches < limit)
      (reasoned : is_empty (trim text) ≡ false) where
    -- Waste with a reason, of a positive quantity of at most the branch's active stock, succeeds:
    -- that stock falls by exactly the quantity in the order FEFO, only batches of the branch that
    -- are not expired change, and one event with the trimmed reason is added; quantities within
    -- the precision and distinct batch ids are assumed.
    pub waste_takes :
        (quantity : d.Num)
        → UniqueIds item.batches
        → Fits quantity
        → 0 < milli quantity
        → milli quantity ≤ stock l (active_in branch date) item.batches
        → (item' : Item d) × (details : List BatchDetail) × (register_waste {d = d} branch quantity
              text date touched item
            ≡ ok item')
          × (item'.domain_events ≡ item.domain_events ++ (waste_event details ∷ []))
          × Took l
              (active_in branch date)
              (usable_in branch date)
              (milli quantity)
              details
              item
              item'
    waste_takes quantity unique fq positive enough =
        let (batches', left, details, run, _, moved, told, shrunk, fit') =
          run_over_sorted l Batch_ops.waste (usable_in branch date) (active_in branch date) quantity
            item.batches (waste-IsReduction l) (usable_in-IsSteady l branch date)
            (active_usable_in l branch date) fit unique fq enough in
        let (stock_fits, stock_value) = current_stock_for_branch_lem l branch date item fit small in
        (
          after_loss (waste_event details) batches',
          details,
          waste_run quantity left batches' details reasoned
              (ground (arith, is_zero_lem l quantity fq))
              (ground (
                arith,
                is_greater_than_lem l quantity (current_stock_for_branch branch date item) fq
                    stock_fits,
                stock_value,
              ))
              run,
          refl,
          (
            omega (
              arith,
              moved,
              counts_usable_in l branch date item.batches fit,
              counts_usable_in l branch date batches' fit',
            ),
            told,
            shrunk,
            fit',
          ),
        )

    -- A count with a reason, below the branch's active stock, leaves the branch with exactly the
    -- counted total, taken in the order FEFO, and adds one event; quantities within the precision
    -- and distinct batch ids are assumed.
    pub count_settles :
        (actual : d.Num)
        → UniqueIds item.batches
        → Fits actual
        → milli actual < stock l (active_in branch date) item.batches
        → (item' : Item d) × (details : List BatchDetail) × (count_stock {d = d} branch actual text
              date touched item
            ≡ ok item')
          × (item'.domain_events ≡ item.domain_events ++ (count_event details ∷ []))
          × (stock l (active_in branch date) item'.batches ≡ milli actual)
          × Took l
              (active_in branch date)
              (usable_in branch date)
              (stock l (active_in branch date) item.batches - milli actual)
              details
              item
              item'
    count_settles actual unique fa less =
        let current = current_stock_for_branch branch date item in
        let (stock_fits, stock_value) = current_stock_for_branch_lem l branch date item fit small in
        let missing = difference d current actual in
        let le : milli actual ≤ milli current = omega (arith, stock_value) in
        let missing_fits = difference_fits l current actual stock_fits fa le in
        let missing_value = difference_milli l current actual stock_fits fa le in
        let (batches', left, details, run, _, moved, told, shrunk, fit') =
          run_over_sorted l adjust_down (usable_in branch date) (active_in branch date) missing
            item.batches (adjust_down-IsReduction l) (usable_in-IsSteady l branch date)
            (active_usable_in l branch date) fit unique missing_fits
            (omega (arith, missing_value, stock_value)) in
        let before = counts_usable_in l branch date item.batches fit in
        let after = counts_usable_in l branch date batches' fit' in
        let exact : milli missing ≡ stock l (active_in branch date) item.batches - milli actual =
          omega (arith, missing_value, stock_value) in
        (
          after_loss (count_event details) batches',
          details,
          count_run actual missing left batches' details reasoned
              (ground (arith, is_greater_than_lem l actual current fa stock_fits, stock_value))
              (ground (arith, is_greater_than_lem l current actual stock_fits fa, stock_value))
              (subtract-ok l current actual stock_fits fa le) run,
          refl,
          omega (arith, moved, before, after, exact),
          (
            omega (arith, moved, before, after, exact),
            told ∙ ap (λ n. picks l n (sort (filter (active_in branch date) item.batches))) exact,
            shrunk,
            fit',
          ),
        )

    -- A count with a reason that is not below the branch's active stock is refused: as an increase
    -- where it is above, as no difference where it is equal; quantities within the precision are
    -- assumed.
    count_refuses :
        (actual : d.Num)
        → Fits actual
        → stock l (active_in branch date) item.batches ≤ milli actual
        → count_stock {d = d} branch actual text date touched item
          ≡ err (
              if ltb (stock l (active_in branch date) item.batches) (milli actual)
              then count_increase_not_allowed item.id
              else no_adjustment_difference branch)
    unfolding count_stock
    count_refuses actual fa le =
        let current = current_stock_for_branch branch date item in
        let (stock_fits, stock_value) = current_stock_for_branch_lem l branch date item fit small in
        let up = is_greater_than_lem l actual current fa stock_fits in
        let down = is_greater_than_lem l current actual stock_fits fa in
        ground (arith, up, down, stock_value)
