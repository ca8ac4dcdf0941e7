-- ===== src/Inventory/Tests.antt =====
-- The theorems on the inventory at concrete data.
use komi_saas_api.Base.{
  String, none, some, List, [], ◌∷◌, ◌≡◌, refl, arith, str_ne, trim, inl, inr, ◌⊎◌, map, false,
}
use komi_saas_api.Base.Throws.{ok}
use komi_saas_api.Shared.Quantity
use komi_saas_api.Inventory.Event.{BatchDetail, stock_consumed}
use komi_saas_api.Inventory.Item.{Item, received_batch, update}
use komi_saas_api.Inventory.Item.Dating.{IsDated, received_batch-IsDated, update-IsDated}
use komi_saas_api.Inventory.Drain.{sort, drain}
use komi_saas_api.Shared.Money.{get_amount}
use komi_saas_api.Inventory.Batch as Batch_ops
use komi_saas_api.Inventory.Drain.Amounts.{stock}
use komi_saas_api.Inventory.Stock
use komi_saas_api.Inventory.Stock.{
  active_at, active_in, current_stock, active_branches, consume, register_waste, count_stock,
}
use komi_saas_api.Inventory.Batch.{is_active}
use komi_saas_api.Inventory.Stock.Value.{usable, usable_in}
use komi_saas_api.Inventory.Stock.Consumption.{consume_takes, Took}
use komi_saas_api.Inventory.Stock.Expiry.{Among, gives, earlier_batch_first}
use komi_saas_api.Inventory.Drain.Shrink.{read}
use komi_saas_api.Inventory.Stock.Losses.{waste_takes, count_settles, waste_event, count_event}
use komi_saas_api.Inventory.Minimum.{set_minimum_for_branch, resolve_minimum_for_branch}
use komi_saas_api.Inventory.Minimum.Overrides.{resolve-set_minimum}
use komi_saas_api.Inventory.Repository.{find_by_id, save}
use komi_saas_api.Inventory.Repository.Reconcile.{Absent}
use komi_saas_api.Inventory.UseCase.{consume_stock}
use komi_saas_api.Inventory.UseCase.Scope.{consume_deletes_overrides}
use komi_saas_api.Inventory.Thousandths.{plain, thousandths, thousandths_laws}
use komi_saas_api.Inventory.Samples.{
  milk, batch_of, reception, other, database, one_from_b1, after_one, told, received_milk,
}

earlier_batch_first_example :
    (item' : Item thousandths) × (branch : String) × (details : List BatchDetail) × (consume
        {d = thousandths}
        (plain 4)
        50
        60
        milk
      ≡ ok item')
    × (item'.domain_events
        ≡ stock_consumed (record {
          item_id = "i1";
          tenant_id = "t1";
          branch_id = branch;
          quantity = Quantity.get_value thousandths (plain 4);
          consumed_batches = details;
          occurred_on = 50;
        })
          ∷ [])
    × ((gives "x" (map (read thousandths_laws) details) ≡ false)
        ⊎ Among ("y", 3) (map (read thousandths_laws) details))
unfolding is_active active_branches Quantity.is_zero
earlier_batch_first_example =
    earlier_batch_first thousandths_laws (plain 4) 50 60 milk (batch_of "y" 3 100)
      (batch_of "x" 2 200) 100 200 (omega arith, (omega arith, tt))
      ((str_ne "y" "x" refl, tt), (tt, tt)) (omega arith) (omega arith) (omega arith) (omega arith)
      (omega arith) (refl, (refl, tt)) (inr (inl refl)) (inl refl) refl refl refl refl (omega arith)

consume_takes_example :
    (item' : Item thousandths) × (branch : String) × (details : List BatchDetail) × (consume
        {d = thousandths}
        (plain 4)
        50
        60
        milk
      ≡ ok item')
    × (item'.domain_events
        ≡ stock_consumed (record {
          item_id = "i1";
          tenant_id = "t1";
          branch_id = branch;
          quantity = Quantity.get_value thousandths (plain 4);
          consumed_batches = details;
          occurred_on = 50;
        })
          ∷ [])
    × Took thousandths_laws (active_at 50) (usable 50) 4 details milk item'
unfolding is_active active_branches Quantity.is_zero
consume_takes_example =
    consume_takes thousandths_laws (plain 4) 50 60 milk (omega arith, (omega arith, tt))
      ((str_ne "y" "x" refl, tt), (tt, tt)) (omega arith) (omega arith) (omega arith) (omega arith)
      (omega arith)

waste_takes_example :
    (item' : Item thousandths) × (details : List BatchDetail) × (register_waste {d = thousandths}
        "b1"
        (plain 4)
        " spilt "
        50
        60
        milk
      ≡ ok item')
    × (item'.domain_events ≡ waste_event thousandths_laws "b1" " spilt " 50 60 milk details ∷ [])
    × Took thousandths_laws (active_in "b1" 50) (usable_in "b1" 50) 4 details milk item'
unfolding is_active trim Quantity.is_zero
waste_takes_example =
    waste_takes thousandths_laws "b1" " spilt " 50 60 milk (omega arith, (omega arith, tt))
      (omega arith) refl (plain 4) ((str_ne "y" "x" refl, tt), (tt, tt)) (omega arith) (omega arith)
      (omega arith)

count_settles_example :
    (item' : Item thousandths) × (details : List BatchDetail) × (count_stock {d = thousandths} "b1"
        (plain 1)
        " count "
        50
        60
        milk
      ≡ ok item')
    × (item'.domain_events ≡ count_event thousandths_laws "b1" " count " 50 60 milk details ∷ [])
    × (stock thousandths_laws (active_in "b1" 50) item'.batches ≡ 1)
    × Took thousandths_laws (active_in "b1" 50) (usable_in "b1" 50) 4 details milk item'
unfolding is_active trim Quantity.is_zero
count_settles_example =
    count_settles thousandths_laws "b1" " count " 50 60 milk (omega arith, (omega arith, tt))
      (omega arith) refl (plain 1) ((str_ne "y" "x" refl, tt), (tt, tt)) (omega arith) (omega arith)

received_batch-IsDated_example : IsDated received_milk
unfolding received_batch Quantity.is_zero Quantity.get_value get_amount
received_batch-IsDated_example =
    received_batch-IsDated reception "z" (41, 42, 43) milk received_milk (refl, (refl, tt)) refl

resolve-set_minimum_example :
    resolve_minimum_for_branch {d = thousandths} "b1" (set_minimum_for_branch "b1" none "c9" 9 milk)
    ≡ some (plain 1)
resolve-set_minimum_example = resolve-set_minimum "b1" "b1" none "c9" 9 milk (refl, tt)

consume_deletes_overrides_example : Absent {d = thousandths} "c2" after_one.configs
unfolding consume_stock find_by_id save Stock.consume is_active Quantity.of active_branches
    Quantity.is_greater_than Quantity.zero Quantity.is_zero current_stock Quantity.add drain sort
    Batch_ops.consume Quantity.subtract Quantity.get_value get_amount
consume_deletes_overrides_example =
    consume_deletes_overrides one_from_b1 50 60 database after_one (told ∷ []) other refl
      (inl (str_ne "c1" "c2" refl), (inr refl, tt)) refl (str_ne "b2" "b1" refl)

update-IsDated_example :
    IsDated {d = thousandths}
      (update
        (record { name = some "Oat"; unit_of_measure = none; is_perishable = some false })
        9
        milk).1
update-IsDated_example =
    update-IsDated
      (record { name = some "Oat"; unit_of_measure = none; is_perishable = some false }) 9 milk
      (refl, (refl, tt))
