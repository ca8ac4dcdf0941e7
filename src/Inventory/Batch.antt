-- ===== src/Inventory/Batch.antt =====
-- A batch of stock
-- (src/context/inventory/domain/entities/inventory-batch/inventory-batch.entity.ts). A date is its
-- number of milliseconds; an expiration date is the date it holds.
use komi_saas_api.Base.{ℕ, String, Option, none, some, Bool, false, not, ◌&&◌, ltb}
use komi_saas_api.Base.Throws.{Result, ok, ◌>>=◌, ◌>>◌, throw_if}
use komi_saas_api.Shared.Failure.{Failure, empty_batch, insufficient_batch_quantity}
use komi_saas_api.Shared.Decimal.{Decimal}
use komi_saas_api.Shared.Quantity
use komi_saas_api.Shared.Money.{Money}
use komi_saas_api.Shared.Money as Money_ops

pub record Batch (d : Decimal) : Type 0 where
  pub id : String
  pub branch_id : String
  pub quantity_received : d.Num
  pub quantity_remaining : d.Num
  pub unit_cost : Money d
  pub expiration_date : Option ℕ
  pub received_at : ℕ

-- The parameters of `create`, which are those of a reception; `received_at` may be left out.
pub record NewBatch (d : Decimal) : Type 0 where
  pub branch_id : String
  pub quantity_received : d.Num
  pub unit_cost : Money d
  pub expiration_date : Option ℕ
  pub received_at : Option ℕ

abbrev pub now_or : Option ℕ → ℕ → ℕ
now_or none now = now
now_or (some date) _ = date

-- `expirationDate ? expirationDate.isBefore(date) : false`
abbrev pub before : Option ℕ → ℕ → Bool
before none date = false
before (some expiration) date = ltb expiration date

module _ {d : Decimal} where
  -- `InventoryBatch.create`: `id` is the UUID drawn, `now` what `new Date()` reads.
  unfoldable pub create : NewBatch d → String → ℕ → Result Failure (Batch d)
  create params id now = do
    throw_if (Quantity.is_zero d params.quantity_received) empty_batch
    ok (record {
      id = id;
      branch_id = params.branch_id;
      quantity_received = params.quantity_received;
      quantity_remaining = params.quantity_received;
      unit_cost = params.unit_cost;
      expiration_date = params.expiration_date;
      received_at = now_or params.received_at now;
    })

  unfoldable pub reduce : Batch d → d.Num → Result Failure (Batch d)
  reduce b quantity = do
    throw_if (Quantity.is_greater_than d quantity b.quantity_remaining) insufficient_batch_quantity
    left ← Quantity.subtract d b.quantity_remaining quantity
    ok (record b { quantity_remaining = left })

  unfoldable pub consume : Batch d → d.Num → Result Failure (Batch d)
  unfolding reduce
  consume b quantity = reduce b quantity

  unfoldable pub waste : Batch d → d.Num → Result Failure (Batch d)
  unfolding reduce
  waste b quantity = reduce b quantity

  unfoldable pub adjust_to : Batch d → d.Num → Batch d
  adjust_to b new_remaining = record b { quantity_remaining = new_remaining }

  unfoldable pub is_expired : Batch d → ℕ → Bool
  is_expired b date = before b.expiration_date date

  unfoldable pub is_depleted : Batch d → Bool
  is_depleted b = Quantity.is_zero d b.quantity_remaining

  unfoldable pub is_active : Batch d → ℕ → Bool
  unfolding is_expired is_depleted
  is_active b date = not (is_depleted b) && not (is_expired b date)

  -- `unitCost.multiply(quantityRemaining.getValue())`: the text is read by `new Decimal`, which throws
  -- on a text that is no number.
  unfoldable pub remaining_cost : Batch d → Result Failure (Money d)
  remaining_cost b = do
    factor ← Money_ops.parsed d (d.parse (Quantity.get_value d b.quantity_remaining))
    Money_ops.multiply d b.unit_cost factor
