-- ===== src/Inventory/Arrival.antt =====
-- The reception of stock
-- (src/context/inventory/application/use-cases/receive-stock/receive-stock.use-case.ts). Dates arrive as
-- their milliseconds.
pub mod Storing
use komi_saas_api.Base.{ℕ, String, Option, none, some, Bool, List, if◌then◌else◌, not}
use komi_saas_api.Base.Throws.{Result, ok, err, ◌>>=◌, ◌>>◌, throw_if}
use komi_saas_api.Shared.Decimal.{Decimal}
use komi_saas_api.Shared.Quantity
use komi_saas_api.Shared.Money.{Money}
use komi_saas_api.Shared.Money as Money_ops
use komi_saas_api.Inventory.Event.{Event}
use komi_saas_api.Inventory.Item.{received_batch}
use komi_saas_api.Inventory.Stock.{default_currency}
use komi_saas_api.Inventory.Repository.{Database, find_by_id}
use komi_saas_api.Inventory.UseCase.{
  UseCaseError, item_not_found, branch_not_found, lift, or_missing, save_and_publish,
}

-- `ReceiveStockParams`
pub record ReceiveParams : Type 0 where
  pub item_id : String
  pub tenant_id : String
  pub branch_id : String
  pub quantity_received : String
  pub total_cost_amount : String
  pub expiration_date : Option ℕ
  pub received_at : Option ℕ

-- `Money.of(totalCostAmount, DEFAULT_CURRENCY).divide(quantityReceived.getValue())`
abbrev pub unit_cost_of :
    (d : Decimal) → (String → String) → String → d.Num → Result UseCaseError (Money d)
unit_cost_of d upper_case total quantity = lift (
    Money_ops.of d upper_case total default_currency >>= λ cost.
    Money_ops.parsed d (d.parse (Quantity.get_value d quantity)) >>= λ divisor.
    Money_ops.divide d cost divisor)

module _ {d : Decimal} (upper_case : String → String)
    (exists_in_tenant : String → String → Bool) where
  unfoldable pub receive_stock :
      ReceiveParams
      → String
      → (ℕ × ℕ × ℕ)
      → Database d
      → Result UseCaseError (Database d × List Event)
  receive_stock params batch_id clock db = do
    throw_if (not (exists_in_tenant params.branch_id params.tenant_id))
        (branch_not_found params.branch_id)
    item ←
        or_missing (find_by_id params.item_id params.tenant_id none db)
          (item_not_found params.item_id)
    quantity ← lift (Quantity.of d params.quantity_received)
    unit_cost ← unit_cost_of d upper_case params.total_cost_amount quantity
    item' ← lift (
        received_batch
          (record {
            branch_id = params.branch_id;
            quantity_received = quantity;
            unit_cost = unit_cost;
            expiration_date = params.expiration_date;
            received_at = params.received_at;
          })
          batch_id clock item)
    ok (save_and_publish db item')
