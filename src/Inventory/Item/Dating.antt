-- ===== src/Inventory/Item/Dating.antt =====
-- The expiration dates of an item's batches agree with whether it is perishable.
use komi_saas_api.Base.{
  ℕ, String, none, [], ◌∷◌, ◌++◌, is_some, ◌≡◌, arith, All-append, ◌⊎◌, inl, inr, if◌then◌else◌,
}
use komi_saas_api.Base.Throws.{ok}
use komi_saas_api.Shared.Decimal.{Decimal}
use komi_saas_api.Inventory.Batch.{Batch, now_or}
use komi_saas_api.Inventory.Drain.Order.{IsUniform}
use komi_saas_api.Inventory.Item.{Item, Reception, Update, received_batch, update}

module _ {d : Decimal} where
  -- Each batch of a perishable item has an expiration date, and no batch of another item has one.
  abbrev pub IsDated : Item d → Type 0
  IsDated item = IsUniform item.is_perishable item.batches

  -- The batch that a reception adds.
  abbrev pub arrived : Reception d → String → ℕ → Item d → Batch d
  arrived p batch_id made item = record {
    id = batch_id;
    branch_id = p.branch_id;
    quantity_received = p.quantity_received;
    quantity_remaining = p.quantity_received;
    unit_cost = p.unit_cost;
    expiration_date = if item.is_perishable then p.expiration_date else none;
    received_at = now_or p.received_at made;
  }

  pub received_adds :
      (p : Reception d) (batch_id : String) (made told touched : ℕ) (item item' : Item d)
      → received_batch p batch_id (made, told, touched) item ≡ ok item'
      → (item'.batches ≡ item.batches ++ (arrived p batch_id made item ∷ []))
        × (item'.is_perishable ≡ item.is_perishable)
        × (is_some (arrived p batch_id made item).expiration_date ≡ item.is_perishable)
  unfolding received_batch
  received_adds p batch_id made told touched item item' e = ground arith

  -- A reception that succeeds keeps that each batch of a perishable item has an expiration date
  -- and no batch of another item has one.
  pub received_batch-IsDated :
      (p : Reception d) (batch_id : String) (clock : ℕ × ℕ × ℕ) (item item' : Item d)
      → IsDated item
      → received_batch p batch_id clock item ≡ ok item'
      → IsDated item'
  received_batch-IsDated p batch_id (made, told, touched) item item' h e =
      let (grown, same, dated) = received_adds p batch_id made told touched item item' e in
      rw (grown, same)
        (All-append (λ b. is_some b.expiration_date ≡ item.is_perishable) item.batches
          (arrived p batch_id made item ∷ []) h (dated, tt))

  update_keeps :
      (u : Update) (now : ℕ) (item : Item d)
      → ((update u now item).1.batches ≡ item.batches)
        × (((update u now item).1.is_perishable ≡ item.is_perishable) ⊎ (item.batches ≡ []))
  unfolding update
  update_keeps u now item = (ground arith, ground arith)

  -- An update keeps that each batch of a perishable item has an expiration date and no batch of
  -- another item has one, also where it throws.
  pub update-IsDated :
      (u : Update) (now : ℕ) (item : Item d) → IsDated item → IsDated (update u now item).1
  update-IsDated u now item h =
      let (same, side) = update_keeps u now item in
      elim side [ inl flag ↦ rw (same, flag) h | inr none_yet ↦ rw (same, none_yet) tt ]
