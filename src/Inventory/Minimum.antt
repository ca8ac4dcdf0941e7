-- ===== src/Inventory/Minimum.antt =====
-- The minimum stock of an item, global and by branch
-- (src/context/inventory/domain/inventory-item.aggregate.ts and
-- entities/inventory-branch-config/inventory-branch-config.entity.ts).
pub mod Overrides
use komi_saas_api.Base.{
  ℕ, suc, String, Option, none, some, Bool, true, false, List, [], ◌∷◌, ◌++◌, find, any, str_eq,
  if◌then◌else◌,
}
use komi_saas_api.Base.Throws.{Result, ok, err, ◌>>=◌, ◌>>◌, throw_if}
use komi_saas_api.Shared.Failure.{Failure, duplicate_branch_in_batch, empty_update}
use komi_saas_api.Shared.Decimal.{Decimal}
use komi_saas_api.Shared.Quantity
use komi_saas_api.Inventory.Item.{Item, BranchConfig, touch}
use komi_saas_api.Inventory.Stock.{current_stock_for_branch}

-- An entry of `setMinimumsForBranches`.
pub record Entry (d : Decimal) : Type 0 where
  pub branch_id : String
  pub min_stock : Option d.Num

abbrev pub refuse_duplicate : Option String → Result Failure (Unit {0})
refuse_duplicate none = ok tt
refuse_duplicate (some branch) = err (duplicate_branch_in_batch branch)

-- `minimum.isGreaterThan(stock)`, or `null` without a minimum.
abbrev pub below : (d : Decimal) → Option d.Num → d.Num → Option Bool
below d none stock = none
below d (some minimum) stock = some (Quantity.is_greater_than d minimum stock)

module _ {d : Decimal} where
  abbrev pub of_branch : String → BranchConfig d → Bool
  of_branch branch c = str_eq c.branch_id branch

  -- `findIndex` and `splice(index, 1)`
  unfoldable pub remove_config : String → List (BranchConfig d) → List (BranchConfig d)
  remove_config branch [] = []
  remove_config branch (c ∷ cs) = if of_branch branch c then cs else c ∷ remove_config branch cs

  -- `existing.changeMinimum(minStock)`, or `push` of a new configuration with the UUID drawn.
  unfoldable pub put_config :
      String → d.Num → String → List (BranchConfig d) → List (BranchConfig d)
  put_config branch minimum id [] = record { id = id; branch_id = branch; min_stock = minimum } ∷ []
  put_config branch minimum id (c ∷ cs) =
      if of_branch branch c
      then record c { min_stock = minimum } ∷ cs
      else c ∷ put_config branch minimum id cs

  abbrev pub change_configs :
      String → Option d.Num → String → List (BranchConfig d) → List (BranchConfig d)
  change_configs branch none id cs = remove_config branch cs
  change_configs branch (some minimum) id cs = put_config branch minimum id cs

  unfoldable pub set_global_minimum : Option d.Num → ℕ → Item d → Item d
  unfolding touch
  set_global_minimum minimum now item = touch now (record item { min_global_stock = minimum })

  unfoldable pub set_minimum_for_branch : String → Option d.Num → String → ℕ → Item d → Item d
  unfolding touch remove_config put_config
  set_minimum_for_branch branch minimum id now item =
      touch now
        (record item { branch_configs = change_configs branch minimum id item.branch_configs })

  -- The branch that the first loop finds a second time.
  unfoldable pub duplicate_in : List String → List (Entry d) → Option String
  duplicate_in seen [] = none
  duplicate_in seen (e ∷ es) =
      let rest = duplicate_in (e.branch_id ∷ seen) es in
      if any (str_eq e.branch_id) seen then some e.branch_id else rest

  -- The second loop. The k-th entry draws its UUID and reads the clock on its own.
  unfoldable pub set_each : List (Entry d) → (ℕ → String) → (ℕ → ℕ) → ℕ → Item d → Item d
  unfolding set_minimum_for_branch
  set_each [] ids times k item = item
  set_each (e ∷ es) ids times k item =
      set_each es ids times (suc k)
        (set_minimum_for_branch e.branch_id e.min_stock (ids k) (times k) item)

  unfoldable pub set_minimums_for_branches :
      List (Entry d) → (ℕ → String) → (ℕ → ℕ) → ℕ → Item d → Result Failure (Item d)
  unfolding duplicate_in set_each touch
  set_minimums_for_branches [] ids times now item = err (empty_update item.id)
  set_minimums_for_branches (e ∷ es) ids times now item = do
    refuse_duplicate (duplicate_in [] (e ∷ es))
    ok (touch now (set_each (e ∷ es) ids times 0 item))

  abbrev pub minimum_or : Option (BranchConfig d) → Option d.Num → Option d.Num
  minimum_or none global = global
  minimum_or (some c) _ = some c.min_stock

  unfoldable pub resolve_minimum_for_branch : String → Item d → Option d.Num
  resolve_minimum_for_branch branch item =
      minimum_or (find (of_branch branch) item.branch_configs) item.min_global_stock

  unfoldable pub is_below_minimum_for : String → ℕ → Item d → Option Bool
  unfolding resolve_minimum_for_branch
  is_below_minimum_for branch date item =
      below d (resolve_minimum_for_branch branch item) (current_stock_for_branch branch date item)
