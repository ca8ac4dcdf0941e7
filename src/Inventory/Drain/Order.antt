-- ===== src/Inventory/Drain/Order.antt =====
-- The order FEFO: what the sort keeps, and when its result is in order.
use komi_saas_api.Base.{
  ℕ, ◌≤◌, Option, some, none, Bool, true, false, List, [], ◌∷◌, filter, ◌≡◌, ◌≢◌, arith, is_some,
  All, Bool-cases, inl, inr, sym,
}
use komi_saas_api.Shared.Decimal.{Decimal}
use komi_saas_api.Inventory.Batch.{Batch}
use komi_saas_api.Inventory.Drain.{later_date, comes_after, insert, sort}

module _ {ℓ} {d : Decimal} (P : Batch d → Type ℓ) where
  All-insert : (b : Batch d) (bs : List (Batch d)) → P b → All P bs → All P (insert b bs)
  unfolding insert
  All-insert b [] h hs = (h, tt)
  All-insert b (c ∷ cs) h hs = elim (Bool-cases (comes_after b c)) [
    | inl after ↦ rw after (hs.0, All-insert b cs h hs.1)
    | inr not_after ↦ rw not_after (h, hs)
  ]

  -- Sorting keeps what holds of every batch.
  pub All-sort : (bs : List (Batch d)) → All P bs → All P (sort bs)
  unfolding sort
  All-sort [] h = tt
  All-sort (b ∷ bs) h = All-insert b (sort bs) h.0 (All-sort bs h.1)

  pub All-filter : (p : Batch d → Bool) (bs : List (Batch d)) → All P bs → All P (filter p bs)
  All-filter p [] h = tt
  All-filter p (b ∷ bs) h = elim (Bool-cases (p b)) [
    | inl kept ↦ rw kept (h.0, All-filter p bs h.1)
    | inr dropped ↦ rw dropped (All-filter p bs h.1)
  ]

-- What the order compares: two dates, or two moments of reception.
abbrev pub Earlier : Option ℕ → Option ℕ → ℕ → ℕ → Type 0
Earlier (some a) (some b) _ _ = a ≤ b
Earlier _ _ received_a received_b = received_a ≤ received_b

later_false : (a b : Option ℕ) (r s : ℕ) → later_date a b r s ≡ false → Earlier a b r s
later_false (some a) (some b) r s h = ground arith
later_false (some a) none r s h = ground arith
later_false none b r s h = ground arith

later_true : (a b : Option ℕ) (r s : ℕ) → later_date a b r s ≡ true → Earlier b a s r
later_true (some a) (some b) r s h = ground arith
later_true (some a) none r s h = ground arith
later_true none (some b) r s h = ground arith
later_true none none r s h = ground arith

Earlier-trans :
    (dated : Bool) (a b c : Option ℕ) (r s t : ℕ)
    → is_some a ≡ dated
    → is_some b ≡ dated
    → is_some c ≡ dated
    → Earlier a b r s
    → Earlier b c s t
    → Earlier a c r t
Earlier-trans dated (some a) (some b) (some c) r s t ha hb hc h k = omega (arith, h, k)
Earlier-trans dated none none none r s t ha hb hc h k = omega (arith, h, k)
Earlier-trans dated (some a) (some b) none r s t ha hb hc h k = absurd (ground arith)
Earlier-trans dated (some a) none c r s t ha hb hc h k = absurd (ground arith)
Earlier-trans dated none (some b) c r s t ha hb hc h k = absurd (ground arith)
Earlier-trans dated none none (some c) r s t ha hb hc h k = absurd (ground arith)

module _ {d : Decimal} where
  -- No two batches have one id.
  abbrev pub UniqueIds : List (Batch d) → Type 0
  UniqueIds [] = Unit
  UniqueIds (b ∷ bs) = All (λ c. c.id ≢ b.id) bs × UniqueIds bs

  UniqueIds-insert :
      (b : Batch d) (bs : List (Batch d))
      → All (λ c. c.id ≢ b.id) bs
      → UniqueIds bs
      → UniqueIds (insert b bs)
  unfolding insert
  UniqueIds-insert b [] h u = (tt, tt)
  UniqueIds-insert b (c ∷ cs) h u = elim (Bool-cases (comes_after b c)) [
    | inl after ↦
        rw after
          (All-insert (λ x. x.id ≢ c.id) b cs (λ e. h.0 (sym e)) u.0, UniqueIds-insert b cs h.1 u.1)
    | inr not_after ↦ rw not_after (h, u)
  ]

  pub UniqueIds-sort : (bs : List (Batch d)) → UniqueIds bs → UniqueIds (sort bs)
  unfolding sort
  UniqueIds-sort [] u = tt
  UniqueIds-sort (b ∷ bs) u =
      UniqueIds-insert b (sort bs) (All-sort (λ c. c.id ≢ b.id) bs u.0) (UniqueIds-sort bs u.1)

  pub UniqueIds-filter :
      (p : Batch d → Bool) (bs : List (Batch d)) → UniqueIds bs → UniqueIds (filter p bs)
  UniqueIds-filter p [] u = tt
  UniqueIds-filter p (b ∷ bs) u = elim (Bool-cases (p b)) [
    | inl kept ↦ rw kept (All-filter (λ c. c.id ≢ b.id) p bs u.0, UniqueIds-filter p bs u.1)
    | inr dropped ↦ rw dropped (UniqueIds-filter p bs u.1)
  ]

  -- The order FEFO: by the expiration date, or by the reception where a date is missing.
  abbrev pub Before : Batch d → Batch d → Type 0
  Before b c = Earlier b.expiration_date c.expiration_date b.received_at c.received_at

  -- Every batch stands before those behind it.
  abbrev pub IsFefo : List (Batch d) → Type 0
  IsFefo [] = Unit
  IsFefo (b ∷ bs) = All (Before b) bs × IsFefo bs

  -- All batches have an expiration date, or none has.
  abbrev pub IsUniform : Bool → List (Batch d) → Type 0
  IsUniform dated bs = All (λ b. is_some b.expiration_date ≡ dated) bs

  Before-first : (b c : Batch d) → comes_after b c ≡ false → Before b c
  unfolding comes_after
  Before-first b c h = later_false b.expiration_date c.expiration_date b.received_at c.received_at h

  Before-second : (b c : Batch d) → comes_after b c ≡ true → Before c b
  unfolding comes_after
  Before-second b c h = later_true b.expiration_date c.expiration_date b.received_at c.received_at h

  ordered_behind :
      (dated : Bool) (b c : Batch d) (cs : List (Batch d))
      → is_some b.expiration_date ≡ dated
      → is_some c.expiration_date ≡ dated
      → IsUniform dated cs
      → Before b c
      → All (Before c) cs
      → All (Before b) cs
  ordered_behind dated b c [] hb hc hs h k = tt
  ordered_behind dated b c (x ∷ xs) hb hc hs h k = (
    Earlier-trans dated b.expiration_date c.expiration_date x.expiration_date b.received_at
        c.received_at x.received_at hb hc hs.0 h k.0,
    ordered_behind dated b c xs hb hc hs.1 h k.1,
  )

  insert-IsFefo :
      (dated : Bool) (b : Batch d) (bs : List (Batch d))
      → is_some b.expiration_date ≡ dated
      → IsUniform dated bs
      → IsFefo bs
      → IsFefo (insert b bs)
  unfolding insert
  insert-IsFefo dated b [] hb hs f = (tt, tt)
  insert-IsFefo dated b (c ∷ cs) hb hs f = elim (Bool-cases (comes_after b c)) [
    | inl after ↦ rw after (
      All-insert (Before c) b cs (Before-second b c after) f.0,
      insert-IsFefo dated b cs hb hs.1 f.1,
    )
    | inr not_after ↦
        let first = Before-first b c not_after in
        rw not_after ((first, ordered_behind dated b c cs hb hs.0 hs.1 first f.0), f)
  ]

  -- Where all batches have an expiration date, or none has, the sorted batches are in the order
  -- FEFO.
  pub sort-IsFefo : (dated : Bool) (bs : List (Batch d)) → IsUniform dated bs → IsFefo (sort bs)
  unfolding sort
  sort-IsFefo dated [] h = tt
  sort-IsFefo dated (b ∷ bs) h =
      insert-IsFefo dated b (sort bs) h.0 (All-sort (λ c. is_some c.expiration_date ≡ dated) bs h.1)
        (sort-IsFefo dated bs h.1)
