-- ===== src/Inventory/Item.antt =====
-- The inventory item, the root of the aggregate
-- (src/context/inventory/domain/inventory-item.aggregate.ts), with what does not concern its stock.
-- A method that may throw returns a result; `update`, which may throw after it has written, returns
-- the item too. Clock readings and UUIDs are arguments.
pub mod Dating
use komi_saas_api.Base.{
  ℕ, String, Option, none, some, Bool, true, false, not, ◌&&◌, List, [], ◌∷◌, ◌++◌, is_some,
  if◌then◌else◌,
}
use komi_saas_api.Base.Throws.{Result, ok, err, ◌>>=◌, ◌>>◌, throw_if}
use komi_saas_api.Shared.Failure.{
  Failure, inactive_item, perishable_requires_expiration, unit_change_not_allowed,
  perishability_change_not_allowed, empty_update, already_active, already_inactive,
}
use komi_saas_api.Shared.Decimal.{Decimal}
use komi_saas_api.Shared.Quantity
use komi_saas_api.Shared.Money.{Money}
use komi_saas_api.Shared.Money as Money_ops
use komi_saas_api.Inventory.Batch as Batch_ops
use komi_saas_api.Inventory.Batch.{Batch, now_or}
use komi_saas_api.Inventory.Event.{Event, item_created, stock_received}

-- `InventoryBranchConfig`: the minimum of one branch.
pub record BranchConfig (d : Decimal) : Type 0 where
  pub id : String
  pub branch_id : String
  pub min_stock : d.Num

pub record Item (d : Decimal) : Type 0 where
  pub id : String
  pub tenant_id : String
  pub sku : String
  pub name : String
  pub unit_of_measure : String
  pub batches : List (Batch d)
  pub is_perishable : Bool
  pub is_active : Bool
  pub min_global_stock : Option d.Num
  pub branch_configs : List (BranchConfig d)
  pub created_at : ℕ
  pub updated_at : ℕ
  pub domain_events : List Event

pub record NewItem : Type 0 where
  pub tenant_id : String
  pub sku : String
  pub name : String
  pub unit_of_measure : String
  pub is_perishable : Bool
  pub created_at : Option ℕ

pub record Reception (d : Decimal) : Type 0 where
  pub branch_id : String
  pub quantity_received : d.Num
  pub unit_cost : Money d
  pub expiration_date : Option ℕ
  pub received_at : Option ℕ

-- The parameters of `update`, each left out or given.
pub record Update : Type 0 where
  pub name : Option String
  pub unit_of_measure : Option String
  pub is_perishable : Option Bool

abbrev pub has_changes : Update → Bool
has_changes u =
    if is_some u.name
    then true
    else if is_some u.unit_of_measure
    then true
    else is_some u.is_perishable

module _ {d : Decimal} where
  unfoldable pub create : NewItem → String → ℕ → Item d
  create params id clock =
      let now = now_or params.created_at clock in
      record {
        id = id;
        tenant_id = params.tenant_id;
        sku = params.sku;
        name = params.name;
        unit_of_measure = params.unit_of_measure;
        batches = [];
        is_perishable = params.is_perishable;
        is_active = true;
        min_global_stock = none;
        branch_configs = [];
        created_at = now;
        updated_at = now;
        domain_events =
            item_created (record {
              item_id = id;
              tenant_id = params.tenant_id;
              sku = params.sku;
              name = params.name;
              unit_of_measure = params.unit_of_measure;
              is_perishable = params.is_perishable;
              is_active = true;
              created_at = now;
              updated_at = now;
            })
            ∷ [];
      }

  unfoldable pub touch : ℕ → Item d → Item d
  touch date item = record item { updated_at = date }

  -- `registerEvent` of the aggregate root.
  unfoldable pub register_event : Event → Item d → Item d
  register_event e item = record item { domain_events = item.domain_events ++ (e ∷ []) }

  unfoldable pub clear_domain_events : Item d → Item d
  clear_domain_events item = record item { domain_events = [] }

  -- The clock is read when the batch is made, when the event is, and when the item is touched.
  unfoldable pub received_batch :
      Reception d → String → (ℕ × ℕ × ℕ) → Item d → Result Failure (Item d)
  unfolding Batch_ops.create touch register_event
  received_batch params batch_id (made, told, touched) item = do
    throw_if (not item.is_active) (inactive_item item.id)
    throw_if (item.is_perishable && not (is_some params.expiration_date))
        (perishable_requires_expiration item.id)
    batch ←
        Batch_ops.create
          (record {
            branch_id = params.branch_id;
            quantity_received = params.quantity_received;
            unit_cost = params.unit_cost;
            expiration_date = if item.is_perishable then params.expiration_date else none;
            received_at = params.received_at;
          })
          batch_id made
    ok (
        touch touched (
          register_event
            (stock_received (record {
              item_id = item.id;
              tenant_id = item.tenant_id;
              branch_id = params.branch_id;
              batch_id = batch.id;
              quantity = Quantity.get_value d params.quantity_received;
              unit_cost_amount = Money_ops.get_amount d params.unit_cost;
              unit_cost_currency = params.unit_cost.currency;
              occurred_on = now_or params.received_at told;
            }))
            (record item { batches = item.batches ++ (batch ∷ []) })))

  abbrev pub has_batches : Item d → Bool
  has_batches item = elim item.batches [ [] ↦ false | _ ∷ _ ↦ true ]

  abbrev pub set_name : Option String → Item d → Item d
  set_name none item = item
  set_name (some name) item = record item { name = name }

  -- The steps of `update` that may throw, over what follows them.
  abbrev pub set_unit :
      Option String
      → Item d
      → (Item d → Result Failure (Unit {0}) × Item d)
      → Result Failure (Unit {0}) × Item d
  set_unit none item next = next item
  set_unit (some unit) item next =
      if has_batches item
      then (err (unit_change_not_allowed item.id), item)
      else next (record item { unit_of_measure = unit })

  abbrev pub set_perishable :
      Option Bool
      → Item d
      → (Item d → Result Failure (Unit {0}) × Item d)
      → Result Failure (Unit {0}) × Item d
  set_perishable none item next = next item
  set_perishable (some flag) item next =
      if has_batches item
      then (err (perishability_change_not_allowed item.id), item)
      else next (record item { is_perishable = flag })

  -- The result, and the item as it is left in memory, also when the method throws.
  unfoldable pub update : Update → ℕ → Item d → Result Failure (Unit {0}) × Item d
  unfolding touch
  update params now item =
      if not (has_changes params)
      then (err (empty_update item.id), item)
      else set_unit params.unit_of_measure (set_name params.name item)
          λ item'. set_perishable params.is_perishable item' λ item''. (ok tt, touch now item'')

  unfoldable pub desactivate : ℕ → Item d → Result Failure (Item d)
  unfolding touch
  desactivate now item = do
    throw_if (not item.is_active) already_inactive
    ok (touch now (record item { is_active = false }))

  unfoldable pub activate : ℕ → Item d → Result Failure (Item d)
  unfolding touch
  activate now item = do
    throw_if item.is_active already_active
    ok (touch now (record item { is_active = true }))
