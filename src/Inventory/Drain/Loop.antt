-- ===== src/Inventory/Drain/Loop.antt =====
-- The loop takes the whole quantity, in the order of the batches, and from no batch more than it has.
use komi_saas_api.Base.{
  ◌+◌, ◌-◌, ◌≤◌, some, Bool, true, false, List, [], ◌∷◌, map, ◌≡◌, ◌≢◌, refl, arith, All,
  Bool-cases, inl, inr, ◌∙◌,
}
use komi_saas_api.Base.Throws.{Result, ok}
use komi_saas_api.Shared.Failure.{Failure}
use komi_saas_api.Shared.Decimal.{Decimal, DecimalLaws}
use komi_saas_api.Shared.Quantity
use komi_saas_api.Shared.Quantity.{difference}
use komi_saas_api.Shared.Quantity.Exact.{
  difference_fits, difference_milli, is_zero_lem, subtract-ok,
}
use komi_saas_api.Inventory.Batch.{Batch, adjust_to}
use komi_saas_api.Inventory.Event.{BatchDetail}
use komi_saas_api.Inventory.Drain.{store, detail, taken, drain}
use komi_saas_api.Inventory.Drain.Order.{UniqueIds}
use komi_saas_api.Inventory.Drain.Amounts.{object, object-store_ne, stock, total, stock-store}
use komi_saas_api.Inventory.Drain.Shrink.{
  taken_fits, taken_milli, picks, read, read-detail, Shrinks, AllFit, Shrinks-refl, Shrinks-store,
  AllFit-store, IsSteady, Shrinks-trans,
}

module _ {d : Decimal} (act : Batch d → d.Num → Result Failure (Batch d)) (pending : d.Num)
    (b : Batch d) (ordered batches : List (Batch d)) where
  drain-zero :
      Quantity.is_zero d pending ≡ true
      → drain act pending (b ∷ ordered) batches ≡ ok (batches, pending, [])
  unfolding drain
  drain-zero h = ground arith

  drain-step :
      (b' : Batch d) (left after : d.Num) (batches' : List (Batch d)) (details : List BatchDetail)
      → Quantity.is_zero d pending ≡ false
      → act b (taken pending b) ≡ ok b'
      → Quantity.subtract d pending (taken pending b) ≡ ok left
      → drain act left ordered (store b' batches) ≡ ok (batches', after, details)
      → drain act pending (b ∷ ordered) batches
        ≡ ok (batches', after, detail b' (taken pending b) ∷ details)
  unfolding drain
  drain-step b' left after batches' details z a s r = ground arith

module _ {d : Decimal} (l : DecimalLaws d) where
  open l use {Fits, milli}

  -- What the loop needs of a batch that it walks: the item holds it, its quantity is exact, and it is
  -- one of those that the stock counts.
  abbrev pub Ready : (Batch d → Bool) → List (Batch d) → Batch d → Type 0
  Ready p batches b = (object b.id batches ≡ some b) × Fits b.quantity_remaining × (p b ≡ true)

  Ready-store :
      (p : Batch d → Bool) (b' : Batch d) (batches ordered : List (Batch d))
      → All (λ c. c.id ≢ b'.id) ordered
      → All (Ready p batches) ordered
      → All (Ready p (store b' batches)) ordered
  Ready-store p b' batches [] u h = tt
  Ready-store p b' batches (c ∷ cs) u h = (
    (object-store_ne b' c.id batches u.0 ∙ h.0.0, h.0.1, h.0.2),
    Ready-store p b' batches cs u.1 h.1,
  )

  -- What a run of the loop has done.
  abbrev pub Drained :
      (Batch d → d.Num → Result Failure (Batch d))
      → (Batch d → Bool)
      → d.Num
      → List (Batch d)
      → List (Batch d)
      → Type 0
  Drained act p pending ordered batches =
      (batches' : List (Batch d)) × (left : d.Num) × (details : List BatchDetail) × (drain act
          pending ordered batches
        ≡ ok (batches', left, details))
      × (milli left ≡ 0)
      × (stock l p batches' + milli pending ≡ stock l p batches)
      × (map (read l) details ≡ picks l (milli pending) ordered)
      × Shrinks l p batches batches'
      × AllFit l batches'

  -- The action takes from a batch what it has, or less, by lowering what remains.
  abbrev pub IsReduction : (Batch d → d.Num → Result Failure (Batch d)) → Type 0
  IsReduction act =
      (b : Batch d) (q : d.Num)
      → Fits b.quantity_remaining
      → Fits q
      → milli q ≤ milli b.quantity_remaining
      → act b q ≡ ok (adjust_to b (difference d b.quantity_remaining q))

  module _ (act : Batch d → d.Num → Result Failure (Batch d)) (p : Batch d → Bool)
      (reduces : IsReduction act) (steady : IsSteady l p) where
    run_without_batches :
        (pending : d.Num) (batches : List (Batch d))
        → milli pending ≡ 0
        → AllFit l batches
        → Drained act p pending [] batches
    unfolding drain
    run_without_batches pending batches z f =
        (batches, pending, [], refl, z, omega arith, refl, Shrinks-refl l p batches, f)

    run_finished :
        (pending : d.Num) (b : Batch d) (ordered batches : List (Batch d))
        → Quantity.is_zero d pending ≡ true
        → milli pending ≡ 0
        → AllFit l batches
        → Drained act p pending (b ∷ ordered) batches
    run_finished pending b ordered batches h z f = (
      batches,
      pending,
      [],
      drain-zero act pending b ordered batches h,
      z,
      omega arith,
      rw z refl,
      Shrinks-refl l p batches,
      f,
    )

    module _ (pending : d.Num) (b : Batch d) (batches : List (Batch d)) (fp : Fits pending)
        (ready : Ready p batches b) where
      abbrev part : d.Num
      part = taken pending b

      abbrev lowered : Batch d
      lowered = adjust_to b (difference d b.quantity_remaining part)

      part_fits : Fits part
      part_fits = taken_fits l pending b fp ready.1

      part_bounds : (milli part ≤ milli b.quantity_remaining) × (milli part ≤ milli pending)
      part_bounds = ground (arith, taken_milli l pending b fp ready.1)

      lowered_milli : milli lowered.quantity_remaining ≡ milli b.quantity_remaining - milli part
      unfolding adjust_to
      lowered_milli = difference_milli l b.quantity_remaining part ready.1 part_fits part_bounds.0

      lowered_fits : Fits lowered.quantity_remaining
      unfolding adjust_to
      lowered_fits = difference_fits l b.quantity_remaining part ready.1 part_fits part_bounds.0

      left_fits : Fits (difference d pending part)
      left_fits = difference_fits l pending part fp part_fits part_bounds.1

      left_milli : milli (difference d pending part) ≡ milli pending - milli part
      left_milli = difference_milli l pending part fp part_fits part_bounds.1

      lowered_id : lowered.id ≡ b.id
      unfolding adjust_to
      lowered_id = refl

      lowered_by_write : stock l p (store lowered batches) + milli part ≡ stock l p batches
      lowered_by_write =
          let moved = stock-store l p b lowered batches ready.0 lowered_id in
          let same : p lowered ≡ true =
            steady b (difference d b.quantity_remaining part) ∙ ready.2 in
          ground (arith, moved, same, ready.2, lowered_milli, part_bounds)

      told_first :
          (details : List BatchDetail) (ordered : List (Batch d))
          → Quantity.is_zero d pending ≡ false
          → map (read l) details ≡ picks l (milli (difference d pending part)) ordered
          → map (read l) (detail lowered part ∷ details) ≡ picks l (milli pending) (b ∷ ordered)
      told_first details ordered z h = ground (
        arith,
        is_zero_lem l pending fp,
        read-detail l lowered part part_fits,
        taken_milli l pending b fp ready.1,
        left_milli,
        lowered_id,
      )

      run_onward :
          (ordered : List (Batch d))
          → Quantity.is_zero d pending ≡ false
          → Drained act p (difference d pending part) ordered (store lowered batches)
          → Drained act p pending (b ∷ ordered) batches
      run_onward ordered z (batches', left, details, run, none_left, moved, told, shrunk, fit) = (
        batches',
        left,
        detail lowered part ∷ details,
        drain-step act pending b ordered batches lowered (difference d pending part) left batches'
            details z (reduces b part ready.1 part_fits part_bounds.0)
            (subtract-ok l pending part fp part_fits part_bounds.1) run,
        none_left,
        omega (arith, moved, lowered_by_write, left_milli, part_bounds),
        told_first details ordered z told,
        Shrinks-trans l p batches (store lowered batches) batches' steady
            (Shrinks-store l p b (difference d b.quantity_remaining part) batches ready.0 ready.2 (
              omega (
                arith,
                difference_milli l b.quantity_remaining part ready.1 part_fits part_bounds.0,
              )))
            shrunk,
        fit,
      )

    still_enough :
        (pending : d.Num) (b : Batch d) (ordered batches : List (Batch d))
        → (fp : Fits pending) → (ready : Ready p batches b)
        → milli pending ≤ milli b.quantity_remaining + total l ordered
        → milli (difference d pending (taken pending b)) ≤ total l ordered
    still_enough pending b ordered batches fp ready le =
        ground (arith, left_milli pending b batches fp ready, taken_milli l pending b fp ready.1)

    -- The loop never throws, and takes all that is asked, where the batches hold as much.
    pub drained :
        (pending : d.Num) (ordered batches : List (Batch d))
        → Fits pending
        → milli pending ≤ total l ordered
        → All (Ready p batches) ordered
        → UniqueIds ordered
        → AllFit l batches
        → Drained act p pending ordered batches
    drained pending [] batches fp le ready u fit =
        run_without_batches pending batches (omega arith) fit
    drained pending (b ∷ ordered) batches fp le ready u fit =
        elim (Bool-cases (Quantity.is_zero d pending)) [
          | inl z ↦
              run_finished pending b ordered batches z (ground (arith, is_zero_lem l pending fp))
                fit
          | inr z ↦ run_onward pending b batches fp ready.0 ordered z (
              drained (difference d pending (taken pending b)) ordered
                (store (lowered pending b batches fp ready.0) batches)
                (left_fits pending b batches fp ready.0)
                (still_enough pending b ordered batches fp ready.0 le)
                (Ready-store p (lowered pending b batches fp ready.0) batches ordered
                  (rw (lowered_id pending b batches fp ready.0) u.0) ready.1)
                u.1
                (AllFit-store l (lowered pending b batches fp ready.0) batches
                  (lowered_fits pending b batches fp ready.0) fit))
        ]
