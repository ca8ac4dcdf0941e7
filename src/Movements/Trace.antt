-- ===== src/Movements/Trace.antt =====
-- Each detail that the loop over the batches writes names a batch that was walked, with a positive
-- quantity that can be read back.
use komi_saas_api.Base.{
  ◌≤◌, ◌<◌, true, false, List, [], ◌∷◌, ◌≡◌, refl, arith, All, Bool-cases, inl, inr,
}
use komi_saas_api.Base.Throws.{Result, ok, Result-cases}
use komi_saas_api.Shared.Failure.{Failure}
use komi_saas_api.Shared.Decimal.{Decimal, DecimalLaws}
use komi_saas_api.Shared.Quantity
use komi_saas_api.Shared.Quantity.{difference}
use komi_saas_api.Shared.Quantity.Exact.{difference_fits, is_zero_lem, subtract_lem}
use komi_saas_api.Inventory.Batch.{Batch}
use komi_saas_api.Inventory.Event.{BatchDetail}
use komi_saas_api.Inventory.Drain.{store, detail, taken, drain}
use komi_saas_api.Inventory.Drain.Shrink.{taken_fits, taken_milli}

module _ {d : Decimal} (act : Batch d → d.Num → Result Failure (Batch d)) (pending : d.Num)
    (b : Batch d) (ordered batches : List (Batch d)) where
  drain-inverted :
      (out : List (Batch d) × d.Num × List BatchDetail)
      → Quantity.is_zero d pending ≡ false
      → drain {d = d} act pending (b ∷ ordered) batches ≡ ok out
      → (b' : Batch d) × (left : d.Num) × (rest : List (Batch d) × d.Num × List BatchDetail)
        × (Quantity.subtract d pending (taken {d = d} pending b) ≡ ok left)
        × (drain {d = d} act left ordered (store b' batches) ≡ ok rest)
        × (act b (taken {d = d} pending b) ≡ ok b')
        × (out.2 ≡ detail b' (taken {d = d} pending b) ∷ rest.2)
  unfolding drain
  drain-inverted out z e = elim (Result-cases (act b (taken {d = d} pending b))) [
    | inr (x, bad) ↦ absurd (ground arith)
    | inl (b', ea) ↦ elim (Result-cases (Quantity.subtract d pending (taken {d = d} pending b))) [
      | inr (x, bad) ↦ absurd (ground arith)
      | inl (left, es) ↦ elim (Result-cases (drain {d = d} act left ordered (store b' batches))) [
        | inr (x, bad) ↦ absurd (ground arith)
        | inl (rest, er) ↦ (b', left, rest, es, er, ea, ground arith)
      ]
    ]
  ]

  drain-nothing :
      (out : List (Batch d) × d.Num × List BatchDetail)
      → Quantity.is_zero d pending ≡ true
      → drain {d = d} act pending (b ∷ ordered) batches ≡ ok out
      → out.2 ≡ []
  unfolding drain
  drain-nothing out z e = ground arith

module _ {d : Decimal} (l : DecimalLaws d) (P : Batch d → Type 0) where
  open l use {Fits, milli}

  abbrev pub Walked : Batch d → Type 0
  Walked b = Fits b.quantity_remaining × (0 < milli b.quantity_remaining) × P b

  abbrev pub Traced : BatchDetail → Type 0
  Traced e = (b : Batch d) × (t : d.Num) × (e ≡ detail b t) × Fits t × (0 < milli t) × P b

  no_details :
      (act : Batch d → d.Num → Result Failure (Batch d)) (pending : d.Num)
      (batches : List (Batch d)) {out : List (Batch d) × d.Num × List BatchDetail}
      → drain {d = d} act pending [] batches ≡ ok out
      → out.2 ≡ []
  unfolding drain
  no_details act pending batches e = ground arith

  pub drain-Traced :
      (act : Batch d → d.Num → Result Failure (Batch d))
      (keeps : (b b' : Batch d) (t : d.Num) → act b t ≡ ok b' → P b → P b')
      (ordered : List (Batch d)) (pending : d.Num) (batches : List (Batch d))
      (out : List (Batch d) × d.Num × List BatchDetail)
      → Fits pending
      → All Walked ordered
      → drain {d = d} act pending ordered batches ≡ ok out
      → All Traced out.2
  unfolding drain
  drain-Traced act keeps [] pending batches out fp w e = rw (no_details act pending batches e) tt
  drain-Traced act keeps (b ∷ ordered) pending batches out fp w e =
      elim (Bool-cases (Quantity.is_zero d pending)) [
        | inl z ↦ rw (drain-nothing act pending b ordered batches out z e) tt
        | inr z ↦
            let (b', left, rest, es, er, ea, eo) =
              drain-inverted act pending b ordered batches out z e in
            let t = taken {d = d} pending b in
            let ft : Fits t = taken_fits l pending b fp w.0.0 in
            let mt = taken_milli l pending b fp w.0.0 in
            let some_left = is_zero_lem l pending fp in
            let sub = subtract_lem l pending t fp ft in
            let le : milli t ≤ milli pending = ground arith in
            let same : left ≡ difference d pending t = ground arith in
            rw eo (
              (b', t, refl, ft, ground arith, keeps b b' t ea w.0.2),
              drain-Traced act keeps ordered left (store b' batches) rest
                  (rw same (difference_fits l pending t fp ft le)) w.1 er,
            )
      ]
