-- ===== src/Inventory/Drain/Amounts.antt =====
-- How much stock a list of batches holds, in thousandths, and what sorting, filtering and a write
-- change of it.
use komi_saas_api.Base.{
  ℕ, ◌+◌, String, Option, some, Bool, List, [], ◌∷◌, filter, find, str_eq, eq_iff, ◌≡◌, ◌≢◌, refl,
  arith, if◌then◌else◌,
}
use komi_saas_api.Shared.Decimal.{Decimal, DecimalLaws}
use komi_saas_api.Inventory.Batch.{Batch}
use komi_saas_api.Inventory.Drain.{insert, sort, store}

module _ {d : Decimal} where
  -- The object with an id.
  abbrev pub object : String → List (Batch d) → Option (Batch d)
  object i bs = find (λ c. str_eq c.id i) bs

  pub object-store_ne :
      (b : Batch d) (i : String) (bs : List (Batch d))
      → i ≢ b.id
      → object i (store b bs) ≡ object i bs
  unfolding store
  object-store_ne b i [] ne = refl
  object-store_ne b i (c ∷ cs) ne =
      ground (arith, eq_iff c.id b.id, eq_iff c.id i, eq_iff b.id i, object-store_ne b i cs ne)

module _ {d : Decimal} (l : DecimalLaws d) where
  open l use {Fits, milli}

  abbrev pub amount : (Batch d → Bool) → Batch d → ℕ
  amount p b = if p b then milli b.quantity_remaining else 0

  -- The stock of the batches that pass a test.
  abbrev pub stock : (Batch d → Bool) → List (Batch d) → ℕ
  stock p [] = 0
  stock p (b ∷ bs) = amount p b + stock p bs

  abbrev pub total : List (Batch d) → ℕ
  total [] = 0
  total (b ∷ bs) = milli b.quantity_remaining + total bs

  total-insert :
      (b : Batch d) (bs : List (Batch d))
      → total (insert b bs) ≡ milli b.quantity_remaining + total bs
  unfolding insert
  total-insert b [] = refl
  total-insert b (c ∷ cs) = ground (arith, total-insert b cs)

  pub total-sort : (bs : List (Batch d)) → total (sort bs) ≡ total bs
  unfolding sort
  total-sort [] = refl
  total-sort (b ∷ bs) = ground (arith, total-insert b (sort bs), total-sort bs)

  pub total-filter : (p : Batch d → Bool) (bs : List (Batch d)) → total (filter p bs) ≡ stock p bs
  total-filter p [] = refl
  total-filter p (b ∷ bs) = ground (arith, total-filter p bs)

  -- A write to an object moves the stock by what it moves the object's amount.
  pub stock-store :
      (p : Batch d → Bool) (b b' : Batch d) (bs : List (Batch d))
      → object b.id bs ≡ some b
      → b'.id ≡ b.id
      → stock p (store b' bs) + amount p b ≡ stock p bs + amount p b'
  unfolding store
  stock-store p b b' [] h same = cc
  stock-store p b b' (c ∷ cs) h same = rw same (ground (arith, stock-store p b b' cs))
