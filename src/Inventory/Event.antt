-- ===== src/Inventory/Event.antt =====
-- The events that an item registers (src/context/inventory/domain/events,
-- src/context/inventory/domain/types/domain.types.ts).
use komi_saas_api.Base.{ℕ, String, Bool, List}

-- `ConsumedBatchDetail`, `WastedBatchDetail` and `AdjustedBatchDetail`, whose direction is always OUT.
pub record BatchDetail : Type 0 where
  pub batch_id : String
  pub quantity : String
  pub unit_cost_amount : String
  pub unit_cost_currency : String

pub record ItemCreated : Type 0 where
  pub item_id : String
  pub tenant_id : String
  pub sku : String
  pub name : String
  pub unit_of_measure : String
  pub is_perishable : Bool
  pub is_active : Bool
  pub created_at : ℕ
  pub updated_at : ℕ

pub record StockReceived : Type 0 where
  pub item_id : String
  pub tenant_id : String
  pub branch_id : String
  pub batch_id : String
  pub quantity : String
  pub unit_cost_amount : String
  pub unit_cost_currency : String
  pub occurred_on : ℕ

pub record StockConsumed : Type 0 where
  pub item_id : String
  pub tenant_id : String
  pub branch_id : String
  pub quantity : String
  pub consumed_batches : List BatchDetail
  pub occurred_on : ℕ

-- `StockWastedEvent` and `StockAdjustedEvent`.
pub record StockReduced : Type 0 where
  pub item_id : String
  pub tenant_id : String
  pub branch_id : String
  pub reason : String
  pub reduced_batches : List BatchDetail
  pub occurred_on : ℕ

pub data Event : Type 0 where
  item_created : ItemCreated → Event
  stock_received : StockReceived → Event
  stock_consumed : StockConsumed → Event
  stock_wasted : StockReduced → Event
  stock_adjusted : StockReduced → Event
