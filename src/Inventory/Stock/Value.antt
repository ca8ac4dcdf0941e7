-- ===== src/Inventory/Stock/Value.antt =====
-- The stock that an item reports, in thousandths.
use komi_saas_api.Base.{
  ℕ, ◌+◌, ◌<◌, String, some, Bool, true, not, ◌&&◌, List, [], ◌∷◌, filter, str_eq, eq_iff, eq_refl,
  ◌≡◌, ◌≢◌, refl, arith, All, Bool-cases, inl, inr,
}
use komi_saas_api.Shared.Decimal.{Decimal, DecimalLaws, limit}
use komi_saas_api.Shared.Quantity
use komi_saas_api.Shared.Quantity.Exact.{zero_fits, zero_milli, add_fits, add_milli, is_zero_lem}
use komi_saas_api.Inventory.Batch as Batch_ops
use komi_saas_api.Inventory.Batch.{Batch, adjust_to}
use komi_saas_api.Inventory.Item.{Item}
use komi_saas_api.Inventory.Drain.Order.{UniqueIds, All-filter}
use komi_saas_api.Inventory.Drain.Amounts.{object, stock, total, total-filter}
use komi_saas_api.Inventory.Drain.Shrink.{AllFit, IsSteady}
use komi_saas_api.Inventory.Drain.Loop.{Ready}
use komi_saas_api.Inventory.Stock.{
  active_at, active_in, sum_remaining, current_stock, current_stock_for_branch,
}

module _ {d : Decimal} where
  -- A batch that may be taken from: not expired; or that and in the branch.
  abbrev pub usable : ℕ → Batch d → Bool
  usable date b = not (Batch_ops.is_expired b date)

  abbrev pub usable_in : String → ℕ → Batch d → Bool
  usable_in branch date b = str_eq b.branch_id branch && not (Batch_ops.is_expired b date)

  object_behind :
      (b : Batch d) (cs xs : List (Batch d))
      → All (λ c. c.id ≢ b.id) xs
      → All (λ c. object c.id cs ≡ some c) xs
      → All (λ c. object c.id (b ∷ cs) ≡ some c) xs
  object_behind b cs [] u h = tt
  object_behind b cs (x ∷ xs) u h =
      (ground (arith, u.0, h.0, eq_iff b.id x.id), object_behind b cs xs u.1 h.1)

  -- In a list of batches with distinct ids each batch is the one that its id finds.
  pub object_self : (bs : List (Batch d)) → UniqueIds bs → All (λ b. object b.id bs ≡ some b) bs
  object_self [] u = tt
  object_self (b ∷ bs) u =
      (ground (arith, eq_refl b.id), object_behind b bs bs u.0 (object_self bs u.1))

module _ {d : Decimal} (l : DecimalLaws d) where
  open l use {Fits, milli}

  pub usable-IsSteady : (date : ℕ) → IsSteady l (usable date)
  unfolding adjust_to Batch_ops.is_expired
  usable-IsSteady date b q = refl

  pub usable_in-IsSteady : (branch : String) (date : ℕ) → IsSteady l (usable_in branch date)
  unfolding adjust_to Batch_ops.is_expired
  usable_in-IsSteady branch date b q = refl

  -- The batches that are not active for being empty hold nothing.
  pub counts_usable :
      (date : ℕ) (bs : List (Batch d))
      → AllFit l bs
      → stock l (active_at date) bs ≡ stock l (usable date) bs
  unfolding Batch_ops.is_active
  counts_usable date [] f = refl
  counts_usable date (b ∷ bs) f =
      ground (arith, is_zero_lem l b.quantity_remaining f.0, counts_usable date bs f.1)

  pub counts_usable_in :
      (branch : String) (date : ℕ) (bs : List (Batch d))
      → AllFit l bs
      → stock l (active_in branch date) bs ≡ stock l (usable_in branch date) bs
  unfolding Batch_ops.is_active
  counts_usable_in branch date [] f = refl
  counts_usable_in branch date (b ∷ bs) f =
      ground (arith, is_zero_lem l b.quantity_remaining f.0, counts_usable_in branch date bs f.1)

  pub active_usable : (date : ℕ) (b : Batch d) → active_at date b ≡ true → usable date b ≡ true
  unfolding Batch_ops.is_active
  active_usable date b h = ground arith

  pub active_usable_in :
      (branch : String) (date : ℕ) (b : Batch d)
      → active_in branch date b ≡ true
      → usable_in branch date b ≡ true
  unfolding Batch_ops.is_active
  active_usable_in branch date b h = ground arith

  pub Ready-filter :
      (p q : Batch d → Bool) (batches xs : List (Batch d))
      → ((b : Batch d) → q b ≡ true → p b ≡ true)
      → All (λ b. object b.id batches ≡ some b) xs
      → AllFit l xs
      → All (Ready l p batches) (filter q xs)
  Ready-filter p q batches [] i o f = tt
  Ready-filter p q batches (x ∷ xs) i o f = elim (Bool-cases (q x)) [
    | inl kept ↦ rw kept ((o.0, f.0, i x kept), Ready-filter p q batches xs i o.1 f.1)
    | inr dropped ↦ rw dropped (Ready-filter p q batches xs i o.1 f.1)
  ]

  -- Adding up from a quantity, as `reduce` does.
  sum_remaining_lem :
      (acc : d.Num) (bs : List (Batch d))
      → Fits acc
      → AllFit l bs
      → milli acc + total l bs < limit
      → Fits (sum_remaining acc bs) × (milli (sum_remaining acc bs) ≡ milli acc + total l bs)
  unfolding sum_remaining
  sum_remaining_lem acc [] fa f h = (fa, omega arith)
  sum_remaining_lem acc (b ∷ bs) fa f h =
      let next = Quantity.add d acc b.quantity_remaining in
      let m : milli next ≡ milli acc + milli b.quantity_remaining =
        add_milli l acc b.quantity_remaining fa f.0 (omega arith) in
      let (fits, value) =
        sum_remaining_lem next bs (add_fits l acc b.quantity_remaining fa f.0 (omega arith)) f.1
          (omega (arith, m)) in
      (fits, omega (arith, value, m))

  reported :
      (q : Batch d → Bool) (bs : List (Batch d))
      → AllFit l bs
      → stock l q bs < limit
      → Fits (sum_remaining (Quantity.zero d) (filter q bs))
        × (milli (sum_remaining (Quantity.zero d) (filter q bs)) ≡ stock l q bs)
  reported q bs f h =
      let (fits, value) =
        sum_remaining_lem (Quantity.zero d) (filter q bs) (zero_fits l)
          (All-filter (λ b. Fits b.quantity_remaining) q bs f)
          (omega (arith, zero_milli l, total-filter l q bs)) in
      (fits, omega (arith, value, zero_milli l, total-filter l q bs))

  -- Where the quantities and their sum are within the precision, the stock that an item reports is
  -- exactly the sum of what its active batches hold.
  pub current_stock_lem :
      (date : ℕ) (item : Item d)
      → AllFit l item.batches
      → stock l (active_at date) item.batches < limit
      → Fits (current_stock date item)
        × (milli (current_stock date item) ≡ stock l (active_at date) item.batches)
  unfolding current_stock
  current_stock_lem date item f h = reported (active_at date) item.batches f h

  pub current_stock_for_branch_lem :
      (branch : String) (date : ℕ) (item : Item d)
      → AllFit l item.batches
      → stock l (active_in branch date) item.batches < limit
      → Fits (current_stock_for_branch branch date item)
        × (milli (current_stock_for_branch branch date item)
            ≡ stock l (active_in branch date) item.batches)
  unfolding current_stock_for_branch
  current_stock_for_branch_lem branch date item f h =
      reported (active_in branch date) item.batches f h
