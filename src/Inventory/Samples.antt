-- ===== src/Inventory/Samples.antt =====
-- Data for the tests of the inventory, with quantities of a few thousandths: a perishable item with
-- two batches in one branch, and the tables that hold it with minimums for two branches.
use komi_saas_api.Base.{ℕ, String, none, some, true, [], ◌∷◌, ◌++◌}
use komi_saas_api.Shared.Money.{Money}
use komi_saas_api.Inventory.Batch.{Batch}
use komi_saas_api.Inventory.Event.{Event, stock_consumed, stock_received}
use komi_saas_api.Inventory.Item.{Item, BranchConfig, Reception}
use komi_saas_api.Inventory.Repository.{Database, BatchRow, ConfigRow, to_item_row}
use komi_saas_api.Inventory.UseCase.{ConsumeParams}
use komi_saas_api.Inventory.Thousandths.{plain, thousandths, strokes}

abbrev pub price : Money thousandths
price = record { amount = plain 10; currency = "COP" }

abbrev pub batch_of : String → ℕ → ℕ → Batch thousandths
batch_of id quantity expires = record {
  id = id;
  branch_id = "b1";
  quantity_received = plain 5;
  quantity_remaining = plain quantity;
  unit_cost = price;
  expiration_date = some expires;
  received_at = 1;
}

abbrev pub config_of : String → String → ℕ → BranchConfig thousandths
config_of id branch minimum = record { id = id; branch_id = branch; min_stock = plain minimum }

abbrev pub milk : Item thousandths
milk = record {
  id = "i1";
  tenant_id = "t1";
  sku = "MILK";
  name = "Milk";
  unit_of_measure = "L";
  batches = batch_of "x" 2 200 ∷ batch_of "y" 3 100 ∷ [];
  is_perishable = true;
  is_active = true;
  min_global_stock = some (plain 1);
  branch_configs = config_of "c1" "b1" 7 ∷ [];
  created_at = 0;
  updated_at = 0;
  domain_events = [];
}

abbrev pub reception : Reception thousandths
reception = record {
  branch_id = "b2";
  quantity_received = plain 4;
  unit_cost = price;
  expiration_date = some 300;
  received_at = none;
}

-- The item after that reception.
abbrev pub received_milk : Item thousandths
received_milk = record milk {
  batches =
      milk.batches
      ++ (record {
        id = "z";
        branch_id = "b2";
        quantity_received = plain 4;
        quantity_remaining = plain 4;
        unit_cost = price;
        expiration_date = some 300;
        received_at = 41;
      }
          ∷ []);
  updated_at = 43;
  domain_events =
      stock_received (record {
        item_id = "i1";
        tenant_id = "t1";
        branch_id = "b2";
        batch_id = "z";
        quantity = "||||";
        unit_cost_amount = "||||||||||";
        unit_cost_currency = "COP";
        occurred_on = 42;
      })
      ∷ [];
}

abbrev pub row_of : Batch thousandths → BatchRow thousandths
row_of b = record { item_id = "i1"; batch = b }

abbrev pub mine : ConfigRow thousandths
mine = record { item_id = "i1"; config = config_of "c1" "b1" 7 }

abbrev pub other : ConfigRow thousandths
other = record { item_id = "i1"; config = config_of "c2" "b2" 9 }

abbrev pub database : Database thousandths
database = record {
  items = to_item_row milk ∷ [];
  batches = row_of (batch_of "x" 2 200) ∷ [];
  configs = mine ∷ other ∷ [];
}

abbrev pub one_from_b1 : ConsumeParams
one_from_b1 = record {
  item_id = "i1";
  tenant_id = "t1";
  branch_id = "b1";
  quantity = strokes 1;
  consumed_at = none;
}

abbrev pub after_one : Database thousandths
after_one = record {
  items = to_item_row (record milk { updated_at = 60 }) ∷ [];
  batches = row_of (batch_of "x" 1 200) ∷ [];
  configs = mine ∷ [];
}

abbrev pub told : Event
told = stock_consumed (record {
  item_id = "i1";
  tenant_id = "t1";
  branch_id = "b1";
  quantity = "|";
  consumed_batches =
      record {
        batch_id = "x";
        quantity = "|";
        unit_cost_amount = "||||||||||";
        unit_cost_currency = "COP";
      }
      ∷ [];
  occurred_on = 50;
})
