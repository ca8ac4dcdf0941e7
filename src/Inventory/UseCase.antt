-- ===== src/Inventory/UseCase.antt =====
-- The use cases that load an item, change it and save it
-- (src/context/inventory/application/use-cases). A use case returns the tables after it and the events
-- published, or throws and writes nothing. Dates arrive as their milliseconds; a quantity as its text.
pub mod Scope
use komi_saas_api.Base.{
  ℕ, String, Option, none, some, Bool, true, false, List, [], ◌∷◌, map, if◌then◌else◌,
}
use komi_saas_api.Base.Throws.{Result, ok, err, ◌>>=◌, ◌>>◌}
use komi_saas_api.Shared.Failure.{Failure}
use komi_saas_api.Shared.Decimal.{Decimal}
use komi_saas_api.Shared.Quantity
use komi_saas_api.Inventory.Batch.{now_or}
use komi_saas_api.Inventory.Event.{Event}
use komi_saas_api.Inventory.Item.{Item}
use komi_saas_api.Inventory.Stock
use komi_saas_api.Inventory.Minimum
use komi_saas_api.Inventory.Minimum.{Entry}
use komi_saas_api.Inventory.Repository.{Database, find_by_id, save}

pub data UseCaseError : Type 0 where
  item_not_found branch_not_found : String → UseCaseError
  name_already_exists invalid_name invalid_unit : String → UseCaseError
  domain : Failure → UseCaseError

abbrev pub lift : {A : Type 0} → Result Failure A → Result UseCaseError A
lift (ok a) = ok a
lift (err e) = err (domain e)

abbrev pub or_missing : {A : Type 0} → Option A → UseCaseError → Result UseCaseError A
or_missing none e = err e
or_missing (some a) e = ok a

-- `ConsumeStockParams`, and those of waste and of a count, whose quantity is the counted total.
pub record ConsumeParams : Type 0 where
  pub item_id : String
  pub tenant_id : String
  pub branch_id : String
  pub quantity : String
  pub consumed_at : Option ℕ

pub record LossParams : Type 0 where
  pub item_id : String
  pub tenant_id : String
  pub branch_id : String
  pub quantity : String
  pub reason : String
  pub occurred_at : Option ℕ

abbrev pub optional_quantity : (d : Decimal) → Option String → Result UseCaseError (Option d.Num)
optional_quantity d none = ok none
optional_quantity d (some text) = lift (Quantity.of d text >>= λ q. ok (some q))

-- `branchChecker.existsInTenant` for each entry, in order.
unfoldable pub check_branches :
    (String → Bool) → List (String × Option String) → Result UseCaseError (Unit {0})
check_branches exists [] = ok tt
check_branches exists ((branch, _) ∷ rest) = do
  or_missing (if exists branch then some tt else none) (branch_not_found branch)
  check_branches exists rest

module _ {d : Decimal} where
  -- Save, publish the events registered, and clear them.
  abbrev pub save_and_publish : Database d → Item d → Database d × List Event
  save_and_publish db item = (save item db, item.domain_events)

  unfoldable pub consume_stock :
      ConsumeParams → ℕ → ℕ → Database d → Result UseCaseError (Database d × List Event)
  consume_stock params now touched db = do
    item ←
        or_missing (find_by_id params.item_id params.tenant_id (some params.branch_id) db)
          (item_not_found params.item_id)
    quantity ← lift (Quantity.of d params.quantity)
    item' ← lift (Stock.consume quantity (now_or params.consumed_at now) touched item)
    ok (save_and_publish db item')

  unfoldable pub register_waste :
      LossParams → ℕ → ℕ → Database d → Result UseCaseError (Database d × List Event)
  register_waste params now touched db = do
    item ←
        or_missing (find_by_id params.item_id params.tenant_id none db)
          (item_not_found params.item_id)
    quantity ← lift (Quantity.of d params.quantity)
    item' ← lift (
        Stock.register_waste params.branch_id quantity params.reason (now_or params.occurred_at now)
          touched item)
    ok (save_and_publish db item')

  unfoldable pub count_stock :
      LossParams → ℕ → ℕ → Database d → Result UseCaseError (Database d × List Event)
  count_stock params now touched db = do
    item ←
        or_missing (find_by_id params.item_id params.tenant_id none db)
          (item_not_found params.item_id)
    actual_total ← lift (Quantity.of d params.quantity)
    item' ← lift (
        Stock.count_stock params.branch_id actual_total params.reason
          (now_or params.occurred_at now) touched item)
    ok (save_and_publish db item')

  unfoldable pub set_global_minimum_stock :
      String → String → Option String → ℕ → Database d → Result UseCaseError (Database d)
  set_global_minimum_stock item_id tenant min_stock now db = do
    item ← or_missing (find_by_id item_id tenant none db) (item_not_found item_id)
    minimum ← optional_quantity d min_stock
    ok (save (Minimum.set_global_minimum minimum now item) db)

  unfoldable pub to_entries : List (String × Option String) → Result UseCaseError (List (Entry d))
  to_entries [] = ok []
  to_entries ((branch, text) ∷ rest) = do
    minimum ← optional_quantity d text
    entries ← to_entries rest
    ok (record { branch_id = branch; min_stock = minimum } ∷ entries)

  unfoldable pub set_branch_minimum_stock :
      (String → Bool)
      → String
      → String
      → List (String × Option String)
      → (ℕ → String)
      → (ℕ → ℕ)
      → ℕ
      → Database d
      → Result UseCaseError (Database d)
  unfolding check_branches to_entries
  set_branch_minimum_stock exists item_id tenant branches ids times now db = do
    item ← or_missing (find_by_id item_id tenant none db) (item_not_found item_id)
    check_branches exists branches
    entries ← to_entries branches
    item' ← lift (Minimum.set_minimums_for_branches entries ids times now item)
    ok (save item' db)
