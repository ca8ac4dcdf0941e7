-- ===== src/Inventory/EntryTests.antt =====
-- The theorems on the reception and the update of an item at concrete data.
use komi_saas_api.Base.{none, some, true, [], ◌∷◌, find, str_eq, trim, utf16_length, ◌≡◌, refl}
use komi_saas_api.Base.Throws.{ok, err}
use komi_saas_api.Shared.Quantity
use komi_saas_api.Shared.Money.{get_amount, of, divide}
use komi_saas_api.Inventory.Batch.{Batch}
use komi_saas_api.Inventory.Event.{Event, stock_received}
use komi_saas_api.Inventory.Item.{received_batch}
use komi_saas_api.Inventory.Repository.{Database, find_by_id, save, to_item_row}
use komi_saas_api.Inventory.UseCase.{name_already_exists}
use komi_saas_api.Inventory.Catalogue.{UpdateParams, create_name, update_item}
use komi_saas_api.Inventory.Catalogue.Renaming.{own_name_refused}
use komi_saas_api.Inventory.Arrival.{ReceiveParams, receive_stock}
use komi_saas_api.Inventory.Arrival.Storing.{reception_stored}
use komi_saas_api.Inventory.Thousandths.{plain, thousandths}
use komi_saas_api.Inventory.Samples.{milk, batch_of, row_of, mine, other, database}

abbrev renaming : UpdateParams
renaming = record {
  name = some " Milk ";
  cost_amount = none;
  cost_currency = none;
  unit_of_measure = none;
  is_perishable = none;
}

own_name_refused_example :
    update_item {d = thousandths} (λ s. s) "i1" "t1" renaming 70 database
    ≡ err (name_already_exists " Milk ")
unfolding create_name trim utf16_length
own_name_refused_example =
    own_name_refused (λ s. s) "i1" "t1" " Milk " renaming 70 database (to_item_row milk) refl refl
      refl

abbrev delivery : ReceiveParams
delivery = record {
  item_id = "i1";
  tenant_id = "t1";
  branch_id = "b2";
  quantity_received = "||||";
  total_cost_amount = "|||";
  expiration_date = some 300;
  received_at = none;
}

abbrev arrived_batch : Batch thousandths
arrived_batch = record {
  id = "z";
  branch_id = "b2";
  quantity_received = plain 4;
  quantity_remaining = plain 4;
  unit_cost = record { amount = plain 3; currency = "COP" };
  expiration_date = some 300;
  received_at = 41;
}

abbrev after_delivery : Database thousandths
after_delivery = record {
  items = to_item_row (record milk { updated_at = 43 }) ∷ [];
  batches = row_of (batch_of "x" 2 200) ∷ row_of arrived_batch ∷ [];
  configs = mine ∷ other ∷ [];
}

abbrev delivered : Event
delivered = stock_received (record {
  item_id = "i1";
  tenant_id = "t1";
  branch_id = "b2";
  batch_id = "z";
  quantity = "||||";
  unit_cost_amount = "|||";
  unit_cost_currency = "COP";
  occurred_on = 42;
})

reception_stored_example :
    (b : Batch thousandths) × (true ≡ true)
    × (find (λ row. str_eq row.batch.id "z") after_delivery.batches
        ≡ some (record { item_id = "i1"; batch = b }))
    × (b.branch_id ≡ "b2")
    × (Quantity.of thousandths "||||" ≡ ok b.quantity_received)
    × (b.quantity_remaining ≡ b.quantity_received)
unfolding receive_stock find_by_id save received_batch Quantity.of of divide Quantity.get_value
    Quantity.is_zero Quantity.is_greater_than get_amount Quantity.zero
reception_stored_example =
    reception_stored (λ s. "COP") (λ b t. true) delivery "z" (41, 42, 43) database after_delivery
      (delivered ∷ []) refl
