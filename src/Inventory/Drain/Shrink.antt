-- ===== src/Inventory/Drain/Shrink.antt =====
-- What the loop takes from one batch, what its details say, and which batches a write changes.
use komi_saas_api.Base.{
  ℕ, ◌-◌, ◌≤◌, String, Option, none, some, Bool, true, List, [], ◌∷◌, str_eq, ◌≡◌, ◌⊎◌, refl, arith,
  All, Bool-cases, inl, inr, if◌then◌else◌, ◌==◌, ltb, ◌∙◌,
}
use komi_saas_api.Shared.Decimal.{Decimal, DecimalLaws}
use komi_saas_api.Shared.Quantity
use komi_saas_api.Shared.Quantity.{difference}
use komi_saas_api.Shared.Quantity.Exact.{is_greater_than_lem}
use komi_saas_api.Inventory.Batch.{Batch, adjust_to}
use komi_saas_api.Inventory.Event.{BatchDetail}
use komi_saas_api.Inventory.Drain.{store, detail, taken}
use komi_saas_api.Inventory.Drain.Amounts.{object}

module _ {d : Decimal} (l : DecimalLaws d) where
  open l use {Fits, milli}

  pub taken_fits :
      (pending : d.Num) (b : Batch d)
      → Fits pending
      → Fits b.quantity_remaining
      → Fits (taken pending b)
  unfolding taken
  taken_fits pending b f g =
      elim (Bool-cases (Quantity.is_greater_than d pending b.quantity_remaining)) [
        | inl h ↦ rw h g
        | inr h ↦ rw h f
      ]

  abbrev pub least : ℕ → ℕ → ℕ
  least q m = if ltb m q then m else q

  pub taken_milli :
      (pending : d.Num) (b : Batch d)
      → Fits pending
      → Fits b.quantity_remaining
      → milli (taken pending b) ≡ least (milli pending) (milli b.quantity_remaining)
  unfolding taken
  taken_milli pending b f g = ground (arith, is_greater_than_lem l pending b.quantity_remaining f g)

  -- The allocation FEFO described on numbers: each batch in turn gives what it has, up to what is
  -- still wanted, and the batches behind give nothing.
  abbrev pub picks : ℕ → List (Batch d) → List (String × ℕ)
  picks q [] = []
  picks q (b ∷ bs) =
      let rest = picks (q - least q (milli b.quantity_remaining)) bs in
      if q == 0 then [] else (b.id, least q (milli b.quantity_remaining)) ∷ rest

  -- What a detail says was taken.
  abbrev pub quantity_of : Option d.Num → ℕ
  quantity_of none = 0
  quantity_of (some q) = milli q

  abbrev pub read : BatchDetail → String × ℕ
  read e = (e.batch_id, quantity_of (d.parse e.quantity))

  pub read-detail : (b : Batch d) (t : d.Num) → Fits t → read (detail b t) ≡ (b.id, milli t)
  unfolding detail Quantity.get_value
  read-detail b t f = rw (l.parse-to_string t f)

  -- Batch by batch: only the remaining quantity may differ, it does not grow, and it differs only
  -- where the test holds.
  abbrev pub Shrinks : (Batch d → Bool) → List (Batch d) → List (Batch d) → Type 0
  Shrinks p [] [] = Unit
  Shrinks p (b ∷ bs) (c ∷ cs) =
      (c ≡ adjust_to b c.quantity_remaining)
      × (milli c.quantity_remaining ≤ milli b.quantity_remaining)
      × ((p b ≡ true) ⊎ (c ≡ b))
      × Shrinks p bs cs
  Shrinks p _ _ = ⊥

  abbrev pub AllFit : List (Batch d) → Type 0
  AllFit bs = All (λ b. Fits b.quantity_remaining) bs

  adjust_to_same : (b : Batch d) → b ≡ adjust_to b b.quantity_remaining
  unfolding adjust_to
  adjust_to_same b = refl

  pub Shrinks-refl : (p : Batch d → Bool) (bs : List (Batch d)) → Shrinks p bs bs
  Shrinks-refl p [] = tt
  Shrinks-refl p (b ∷ bs) = (adjust_to_same b, omega arith, inr refl, Shrinks-refl p bs)

  pub Shrinks-store :
      (p : Batch d → Bool) (b : Batch d) (q : d.Num) (bs : List (Batch d))
      → object b.id bs ≡ some b
      → p b ≡ true
      → milli q ≤ milli b.quantity_remaining
      → Shrinks p bs (store (adjust_to b q) bs)
  unfolding store adjust_to
  Shrinks-store p b q [] h t le = tt
  Shrinks-store p b q (c ∷ cs) h t le = elim (Bool-cases (str_eq c.id b.id)) [
    | inl here ↦
        let same : c ≡ b = ground arith in rw here (rw same (refl, le, inl t, Shrinks-refl p cs))
    | inr there ↦ rw there (refl, omega arith, inr refl, Shrinks-store p b q cs (ground arith) t le)
  ]

  pub AllFit-store :
      (b : Batch d) (bs : List (Batch d))
      → Fits b.quantity_remaining
      → AllFit bs
      → AllFit (store b bs)
  unfolding store
  AllFit-store b [] f h = tt
  AllFit-store b (c ∷ cs) f h = elim (Bool-cases (str_eq c.id b.id)) [
    | inl here ↦ rw here (f, h.1)
    | inr there ↦ rw there (h.0, AllFit-store b cs f h.1)
  ]

  -- The test does not read the remaining quantity.
  abbrev pub IsSteady : (Batch d → Bool) → Type 0
  IsSteady p = (b : Batch d) (q : d.Num) → p (adjust_to b q) ≡ p b

  pub Shrinks-trans :
      (p : Batch d → Bool) (xs ys zs : List (Batch d))
      → IsSteady p
      → Shrinks p xs ys
      → Shrinks p ys zs
      → Shrinks p xs zs
  unfolding adjust_to
  Shrinks-trans p [] [] [] s h k = tt
  Shrinks-trans p [] (y ∷ ys) zs s h k = absurd h
  Shrinks-trans p (x ∷ xs) [] zs s h k = absurd h
  Shrinks-trans p [] [] (z ∷ zs) s h k = absurd k
  Shrinks-trans p (x ∷ xs) (y ∷ ys) [] s h k = absurd k
  Shrinks-trans p (x ∷ xs) (y ∷ ys) (z ∷ zs) s (e, le, side, h) (e', le', side', k) =
      (ground arith, omega arith, joined side side', Shrinks-trans p xs ys zs s h k)
    where
      joined : (p x ≡ true) ⊎ (y ≡ x) → (p y ≡ true) ⊎ (z ≡ y) → (p x ≡ true) ⊎ (z ≡ x)
      joined (inl t) _ = inl t
      joined (inr u) (inl t) = inl (rw u at t)
      joined (inr u) (inr v) = inr (v ∙ u)
