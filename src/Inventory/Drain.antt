-- ===== src/Inventory/Drain.antt =====
-- The loops of `consume`, `registerWaste` and `countStock`
-- (src/context/inventory/domain/inventory-item.aggregate.ts), which take a quantity from batches in
-- the order FEFO. The array that the loop walks and the array of the item hold the same objects: an
-- object is known by its id, and a write through the one array is `store` on the other.
pub mod Order
pub mod Amounts
pub mod Shrink
pub mod Loop
use komi_saas_api.Base.{
  ℕ, String, Option, none, some, Bool, true, false, List, [], ◌∷◌, filter, ltb, str_eq,
  if◌then◌else◌, length,
}
use komi_saas_api.Base.Throws.{Result, ok, err, ◌>>=◌, ◌>>◌}
use komi_saas_api.Shared.Failure.{Failure}
use komi_saas_api.Shared.Decimal.{Decimal}
use komi_saas_api.Shared.Quantity
use komi_saas_api.Shared.Money as Money_ops
use komi_saas_api.Inventory.Batch.{Batch, consume, waste, adjust_to}
use komi_saas_api.Inventory.Event.{BatchDetail}

-- `compararPorFefo(a, b) > 0`
abbrev pub later_date : Option ℕ → Option ℕ → ℕ → ℕ → Bool
later_date (some a) (some b) _ _ = ltb b a
later_date _ _ received_a received_b = ltb received_b received_a

module _ {d : Decimal} where
  unfoldable pub comes_after : Batch d → Batch d → Bool
  comes_after a b = later_date a.expiration_date b.expiration_date a.received_at b.received_at

  unfoldable pub insert : Batch d → List (Batch d) → List (Batch d)
  insert b [] = b ∷ []
  insert b (c ∷ cs) = if comes_after b c then c ∷ insert b cs else b ∷ c ∷ cs

  -- `sort(compararPorFefo)`: JavaScript's sort is stable, so for a comparator that orders the batches
  -- its result is that of any stable sort.
  unfoldable pub sort : List (Batch d) → List (Batch d)
  unfolding insert
  sort [] = []
  sort (b ∷ bs) = insert b (sort bs)

  -- A write to the object with this id.
  unfoldable pub store : Batch d → List (Batch d) → List (Batch d)
  store b [] = []
  store b (c ∷ cs) = if str_eq c.id b.id then b ∷ cs else c ∷ store b cs

  unfoldable pub detail : Batch d → d.Num → BatchDetail
  detail b take = record {
    batch_id = b.id;
    quantity = Quantity.get_value d take;
    unit_cost_amount = Money_ops.get_amount d b.unit_cost;
    unit_cost_currency = b.unit_cost.currency;
  }

  -- `take`
  unfoldable pub taken : d.Num → Batch d → d.Num
  taken pending b =
      if Quantity.is_greater_than d pending b.quantity_remaining
      then b.quantity_remaining
      else pending

  -- The loop, over what it does to a batch: the batches of the item, what is still pending, and the
  -- details in order.
  unfoldable pub drain :
      (Batch d → d.Num → Result Failure (Batch d))
      → d.Num
      → List (Batch d)
      → List (Batch d)
      → Result Failure (List (Batch d) × d.Num × List BatchDetail)
  unfolding store detail taken
  drain act pending [] batches = ok (batches, pending, [])
  drain act pending (b ∷ ordered) batches = elim (Quantity.is_zero d pending) [
    | true ↦ ok (batches, pending, [])
    | false ↦ act b (taken pending b) >>= λ b'.
        Quantity.subtract d pending (taken pending b) >>= λ left.
        drain act left ordered (store b' batches) >>= λ rest.
        ok (rest.0, rest.1, detail b' (taken pending b) ∷ rest.2)
  ]

  -- `batch.adjustTo(batch.getRemaining().subtract(take))`
  unfoldable pub adjust_down : Batch d → d.Num → Result Failure (Batch d)
  adjust_down b take = do
    left ← Quantity.subtract d b.quantity_remaining take
    ok (adjust_to b left)
