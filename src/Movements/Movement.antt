-- ===== src/Movements/Movement.antt =====
-- A movement (src/context/inventory-movements/domain/inventory-movement.aggregate.ts), its type
-- (value-objects/inventory-movement-type.value-object.ts) and the use case that records one
-- (application/use-case/record-movement/record-movement.use-case.ts).
use komi_saas_api.Base.{
  ℕ, String, Option, none, some, Bool, true, false, not, ◌&&◌, List, [], ◌∷◌, ◌++◌, any, str_eq,
  trim, is_empty, if◌then◌else◌,
}
use komi_saas_api.Base.Throws.{Result, ok, err, ◌>>=◌, ◌>>◌, throw_if}
use komi_saas_api.Shared.Failure as Shared_failure
use komi_saas_api.Shared.Decimal.{Decimal}
use komi_saas_api.Shared.Quantity
use komi_saas_api.Shared.Money.{Money}
use komi_saas_api.Shared.Money as Money_ops

pub data MovementError : Type 0 where
  non_positive_quantity : MovementError
  reason_required unknown_type : String → MovementError
  of_shared : Shared_failure.Failure → MovementError
  -- what the database throws on an insert
  not_stored : MovementError

abbrev pub lift_shared : {A : Type 0} → Result Shared_failure.Failure A → Result MovementError A
lift_shared (ok a) = ok a
lift_shared (err e) = err (of_shared e)

-- `Object.values(MovementType)`
abbrev pub movement_types : List String
movement_types = "ENTRY" ∷ "CONSUMPTION" ∷ "WASTE" ∷ "ADJUSTMENT_IN" ∷ "ADJUSTMENT_OUT" ∷ []

-- `InventoryMovementType.created`: the text is tested in its normal form and kept as it came.
unfoldable pub create_type : (String → String) → String → Result MovementError String
create_type upper_case type = do
  throw_if (not (any (str_eq (upper_case (trim type))) movement_types)) (unknown_type type)
  ok type

unfoldable pub requires_reason : String → Bool
requires_reason value = any (str_eq value) ("WASTE" ∷ "ADJUSTMENT_IN" ∷ "ADJUSTMENT_OUT" ∷ [])

pub record Movement (d : Decimal) : Type 0 where
  pub id : String
  pub tenant_id : String
  pub inventory_item_id : String
  pub branch_id : String
  pub batch_id : Option String
  pub movement_type : String
  pub quantity : d.Num
  pub unit_cost : Option (Money d)
  pub reason : Option String
  pub occurred_at : ℕ
  pub registered_at : ℕ

-- `RecordMovementParams`; a key that is left out is `none`.
pub record RecordParams : Type 0 where
  pub tenant_id : String
  pub inventory_item_id : String
  pub branch_id : String
  pub batch_id : Option String
  pub movement_type : String
  pub quantity : String
  pub unit_cost_amount : Option String
  pub unit_cost_currency : Option String
  pub reason : Option String
  pub occurred_at : Option ℕ

-- `reason?.trim() || null`
abbrev pub trimmed : Option String → Option String
trimmed none = none
trimmed (some text) = if is_empty (trim text) then none else some (trim text)

abbrev pub is_missing : Option String → Bool
is_missing none = true
is_missing (some _) = false

abbrev pub at_or : Option ℕ → ℕ → ℕ
at_or none now = now
at_or (some date) _ = date

module _ (d : Decimal) (upper_case : String → String) where
  -- `unitCostAmount && unitCostCurrency ? Money.of(…) : null`
  abbrev pub read_cost : Option String → Option String → Result MovementError (Option (Money d))
  read_cost (some amount) (some currency) =
      if is_empty amount
      then ok none
      else if is_empty currency
      then ok none
      else lift_shared (Money_ops.of d upper_case amount currency) >>= λ cost. ok (some cost)
  read_cost _ _ = ok none

  -- `InventoryMovement.create`, over the values that the use case has read. The clock is read for the
  -- moment of the movement, where none is given, and then for its registration.
  unfoldable pub create :
      RecordParams
      → String
      → d.Num
      → Option (Money d)
      → String
      → ℕ × ℕ
      → Result MovementError (Movement d)
  create params type quantity cost id (first, second) = do
    throw_if (Quantity.is_zero d quantity) non_positive_quantity
    throw_if (requires_reason type && is_missing (trimmed params.reason)) (reason_required type)
    ok (record {
      id = id;
      tenant_id = params.tenant_id;
      inventory_item_id = params.inventory_item_id;
      branch_id = params.branch_id;
      batch_id = params.batch_id;
      movement_type = type;
      quantity = quantity;
      unit_cost = cost;
      reason = trimmed params.reason;
      occurred_at = at_or params.occurred_at first;
      registered_at = second;
    })

  -- `RecordMovementUseCase.execute`: the rows after it. `accepts` says whether the database takes the
  -- row.
  unfoldable pub execute :
      (Movement d → Bool)
      → RecordParams
      → String
      → ℕ × ℕ
      → List (Movement d)
      → Result MovementError (List (Movement d))
  unfolding create create_type
  execute accepts params id clock rows = do
    cost ← read_cost params.unit_cost_amount params.unit_cost_currency
    type ← create_type upper_case params.movement_type
    quantity ← lift_shared (Quantity.of d params.quantity)
    movement ← create params type quantity cost id clock
    throw_if (not (accepts movement)) not_stored
    ok (rows ++ (movement ∷ []))
