-- ===== src/Movements/Handlers.antt =====
-- The handlers of the events of the inventory
-- (src/context/inventory-movements/infrastructure/persistence/handlers/stock-movement.handlers.ts). The
-- event bus calls one handler for an event; what a handler logs is kept as a list.
use komi_saas_api.Base.{ℕ, suc, String, Option, none, some, Bool, List, [], ◌∷◌, ◌++◌, map, length}
use komi_saas_api.Base.Throws.{ok, err}
use komi_saas_api.Shared.Decimal.{Decimal}
use komi_saas_api.Inventory.Event.{
  BatchDetail, Event, item_created, stock_received, stock_consumed, stock_wasted, stock_adjusted,
}
use komi_saas_api.Movements.Movement.{MovementError, Movement, RecordParams, execute}

-- A line of `logAuditFailure`, before the sanitizer of the log: the operation, the movements that are missing, the last error, and out of
-- how many, where that is known.
pub record AuditFailure : Type 0 where
  pub operation : String
  pub failed_movements : List RecordParams
  pub error : MovementError
  pub total_movements : Option ℕ

pub record Ledger (d : Decimal) : Type 0 where
  pub rows : List (Movement d)
  pub log : List AuditFailure

-- The movement of one batch.
abbrev pub movement_of :
    String → String → String → String → Option String → ℕ → BatchDetail → RecordParams
movement_of type tenant item branch reason occurred_on b = record {
  tenant_id = tenant;
  inventory_item_id = item;
  branch_id = branch;
  batch_id = some b.batch_id;
  movement_type = type;
  quantity = b.quantity;
  unit_cost_amount = some b.unit_cost_amount;
  unit_cost_currency = some b.unit_cost_currency;
  reason = reason;
  occurred_at = some occurred_on;
}

-- `ids k` and `clocks k` are what the k-th attempt draws and reads.
module _ {d : Decimal} (upper_case : String → String) (accepts : Movement d → Bool)
    (ids : ℕ → String) (clocks : ℕ → ℕ × ℕ) where
  -- One turn of the loop of `recordAll`: the rows, and the movement and error if it failed.
  abbrev pub attempt :
      ℕ → RecordParams → List (Movement d) → List (Movement d) × Option MovementError
  attempt k params rows = elim (execute d upper_case accepts params (ids k) (clocks k) rows) [
    | ok rows' ↦ (rows', none)
    | err e ↦ (rows, some e)
  ]

  abbrev pub note :
      Option MovementError
      → RecordParams
      → List RecordParams × Option MovementError
      → List RecordParams × Option MovementError
  note none params (failed, last) = (failed, last)
  note (some e) params (failed, last) = (failed ++ (params ∷ []), some e)

  -- The loop: the rows, the movements that failed so far, and the last error.
  unfoldable pub record_each :
      ℕ
      → List RecordParams
      → List (Movement d)
      → List RecordParams × Option MovementError
      → List (Movement d) × List RecordParams × Option MovementError
  record_each k [] rows (failed, last) = (rows, failed, last)
  record_each k (m ∷ ms) rows noted =
      let (rows', outcome) = attempt k m rows in record_each (suc k) ms rows' (note outcome m noted)

  -- The log line is written where a movement failed.
  abbrev pub log_failures :
      String → ℕ → List RecordParams → Option MovementError → List AuditFailure → List AuditFailure
  log_failures operation total failed none log = log
  log_failures operation total failed (some e) log =
      log
      ++ (record {
        operation = operation;
        failed_movements = failed;
        error = e;
        total_movements = some total;
      }
          ∷ [])

  unfoldable pub record_all : ℕ → String → List RecordParams → Ledger d → Ledger d
  unfolding record_each
  record_all k operation movements ledger =
      let (rows, failed, last) = record_each k movements ledger.rows ([], none) in
      record { rows = rows; log = log_failures operation (length movements) failed last ledger.log }

  abbrev pub finish_received :
      RecordParams → Ledger d → List (Movement d) × Option MovementError → Ledger d
  finish_received params ledger (rows, none) = record ledger { rows = rows }
  finish_received params ledger (rows, some e) = record ledger {
    log =
        ledger.log
        ++ (record {
          operation = "ENTRY";
          failed_movements = params ∷ [];
          error = e;
          total_movements = none;
        }
            ∷ []);
  }

  abbrev pub on_received : ℕ → RecordParams → Ledger d → Ledger d
  on_received k params ledger = finish_received params ledger (attempt k params ledger.rows)

  -- `onStockReceived`, `onStockConsumed`, `onStockWasted` and `onStockAdjusted`. No handler listens for
  -- the creation of an item.
  unfoldable pub handle : ℕ → Event → Ledger d → Ledger d
  unfolding record_all
  handle k (item_created e) ledger = ledger
  handle k (stock_received e) ledger =
      on_received k
        (record {
          tenant_id = e.tenant_id;
          inventory_item_id = e.item_id;
          branch_id = e.branch_id;
          batch_id = some e.batch_id;
          movement_type = "ENTRY";
          quantity = e.quantity;
          unit_cost_amount = some e.unit_cost_amount;
          unit_cost_currency = some e.unit_cost_currency;
          reason = none;
          occurred_at = some e.occurred_on;
        })
        ledger
  handle k (stock_consumed e) ledger =
      record_all k "CONSUMPTION"
        (map (movement_of "CONSUMPTION" e.tenant_id e.item_id e.branch_id none e.occurred_on)
          e.consumed_batches)
        ledger
  handle k (stock_wasted e) ledger =
      record_all k "WASTE"
        (map (movement_of "WASTE" e.tenant_id e.item_id e.branch_id (some e.reason) e.occurred_on)
          e.reduced_batches)
        ledger
  handle k (stock_adjusted e) ledger =
      record_all k "AJUSTE"
        (map
          (movement_of "ADJUSTMENT_OUT" e.tenant_id e.item_id e.branch_id (some e.reason)
            e.occurred_on)
          e.reduced_batches)
        ledger
