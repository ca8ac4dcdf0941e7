-- ===== src/Inventory/Stock/Expiry.antt =====
-- No stock is passed over: what a consumption takes, by the expiration dates of the batches.
use komi_saas_api.Base.{
  ℕ, ◌-◌, ◌≤◌, ◌<◌, String, Option, some, none, Bool, true, false, List, [], ◌∷◌, ◌++◌, filter, map,
  any, length, str_eq, ◌≡◌, ◌≢◌, ◌⊎◌, refl, arith, All, Bool-cases, inl, inr, eq_iff, subst, sym,
  ap, ◌∙◌, ltb, ◌==◌, is_some,
}
use komi_saas_api.Base.Throws.{ok}
use komi_saas_api.Shared.Decimal.{Decimal, DecimalLaws, limit}
use komi_saas_api.Shared.Quantity
use komi_saas_api.Inventory.Batch.{Batch}
use komi_saas_api.Inventory.Event.{BatchDetail, stock_consumed}
use komi_saas_api.Inventory.Item.{Item}
use komi_saas_api.Inventory.Drain.{comes_after, insert, sort}
use komi_saas_api.Inventory.Drain.Order.{
  IsFefo, IsUniform, UniqueIds, UniqueIds-filter, UniqueIds-sort, All-filter, Earlier, Before,
  sort-IsFefo,
}
use komi_saas_api.Inventory.Drain.Amounts.{stock}
use komi_saas_api.Inventory.Drain.Shrink.{AllFit, least, picks, read}
use komi_saas_api.Inventory.Stock.{active_at, active_branches, consume}
use komi_saas_api.Inventory.Stock.Consumption.{consume_takes}

-- An element of a list.
abbrev pub Among : {A : Type 0} → A → List A → Type 0
Among a [] = ⊥
Among a (x ∷ xs) = (x ≡ a) ⊎ Among a xs

All-at : {A : Type 0} (P : A → Type 0) (xs : List A) (a : A) → Among a xs → All P xs → P a
All-at P [] a m h = absurd m
All-at P (x ∷ xs) a (inl e) h = subst P e h.0
All-at P (x ∷ xs) a (inr m) h = All-at P xs a m h.1

-- The batch of this id gave something.
abbrev pub gives : String → List (String × ℕ) → Bool
gives id taken = any (λ t. str_eq t.0 id) taken

clash : (eb ec : ℕ) → some eb ≡ some ec → eb < ec → ⊥
clash eb ec e less = ground arith

behind_later :
    (a b : Option ℕ) (r s eb ec : ℕ) → a ≡ some ec → b ≡ some eb → eb < ec → Earlier a b r s → ⊥
behind_later (some x) (some y) r s eb ec ha hb less h = ground arith
behind_later none (some y) r s eb ec ha hb less h = ground arith
behind_later (some x) none r s eb ec ha hb less h = ground arith
behind_later none none r s eb ec ha hb less h = ground arith

module _ {d : Decimal} where
  Among-filter :
      (p : Batch d → Bool) (bs : List (Batch d)) (b : Batch d)
      → p b ≡ true
      → Among b bs
      → Among b (filter p bs)
  Among-filter p [] b h m = m
  Among-filter p (x ∷ xs) b h (inl e) = rw (subst (λ y. p y ≡ true) (sym e) h) (inl e)
  Among-filter p (x ∷ xs) b h (inr m) = elim (Bool-cases (p x)) [
    | inl kept ↦ rw kept (inr (Among-filter p xs b h m))
    | inr dropped ↦ rw dropped (Among-filter p xs b h m)
  ]

  Among-insert : (x : Batch d) (bs : List (Batch d)) → Among x (insert x bs)
  unfolding insert
  Among-insert x [] = inl refl
  Among-insert x (c ∷ cs) = elim (Bool-cases (comes_after x c)) [
    | inl after ↦ rw after (inr (Among-insert x cs))
    | inr not_after ↦ rw not_after (inl refl)
  ]

  Among-insert_other :
      (x : Batch d) (bs : List (Batch d)) (b : Batch d) → Among b bs → Among b (insert x bs)
  unfolding insert
  Among-insert_other x [] b m = absurd m
  Among-insert_other x (c ∷ cs) b m = elim (Bool-cases (comes_after x c)) [
    | inr not_after ↦ rw not_after (inr m)
    | inl after ↦ rw after (elim m [ inl e ↦ inl e | inr k ↦ inr (Among-insert_other x cs b k) ])
  ]

  Among-sort : (bs : List (Batch d)) (b : Batch d) → Among b bs → Among b (sort bs)
  unfolding sort
  Among-sort [] b m = m
  Among-sort (x ∷ xs) b (inl e) =
      subst (λ y. Among y (insert x (sort xs))) e (Among-insert x (sort xs))
  Among-sort (x ∷ xs) b (inr m) = Among-insert_other x (sort xs) b (Among-sort xs b m)

module _ {d : Decimal} (l : DecimalLaws d) where
  open l use {Fits, milli}

  -- A batch that is not walked gives nothing.
  gives_nothing :
      (id : String) (q : ℕ) (bs : List (Batch d))
      → All (λ c. c.id ≢ id) bs
      → gives id (picks l q bs) ≡ false
  gives_nothing id q [] h = refl
  gives_nothing id q (b ∷ bs) h =
      ground (
        arith,
        eq_iff b.id id,
        gives_nothing id (q - least l q (milli b.quantity_remaining)) bs h.1,
      )

  gives_head :
      (id : String) (b : Batch d) (n : ℕ) (rest : List (String × ℕ))
      → b.id ≢ id
      → gives id ((b.id, n) ∷ rest) ≡ gives id rest
  gives_head id b n rest h = ground (arith, eq_iff b.id id)

  picks_nothing : (bs : List (Batch d)) → picks l 0 bs ≡ []
  picks_nothing [] = refl
  picks_nothing (b ∷ bs) = refl

  -- The first batch gives all it has, or no other gives anything.
  head_first :
      (q : ℕ) (id : String) (b : Batch d) (bs : List (Batch d))
      → b.id ≢ id
      → (gives id (picks l q (b ∷ bs)) ≡ false)
        ⊎ Among (b.id, milli b.quantity_remaining) (picks l q (b ∷ bs))
  head_first q id b bs other = elim (Bool-cases (q == 0)) [
    | inl nothing ↦ rw nothing (inl refl)
    | inr wanted ↦ elim (Bool-cases (ltb (milli b.quantity_remaining) q)) [
      | inl emptied ↦ rw (wanted, emptied) (inr (inl refl))
      | inr enough ↦
          let spent : q - q ≡ 0 = omega arith in
          inl (
            rw (wanted, enough)
              (gives_head id b q (picks l (q - q) bs) other ∙ rw (spent, picks_nothing bs) refl))
    ]
  ]

  -- What holds of the batches behind holds with one that gives before them.
  behind :
      (q : ℕ) (id : String) (x : Batch d) (bs : List (Batch d)) (share : String × ℕ)
      → x.id ≢ id
      → (gives id (picks l (q - least l q (milli x.quantity_remaining)) bs) ≡ false)
        ⊎ Among share (picks l (q - least l q (milli x.quantity_remaining)) bs)
      → (gives id (picks l q (x ∷ bs)) ≡ false) ⊎ Among share (picks l q (x ∷ bs))
  behind q id x bs share other h = elim (Bool-cases (q == 0)) [
    | inl nothing ↦ rw nothing (inl refl)
    | inr wanted ↦ rw wanted (elim h [
      | inl none_given ↦ inl (
          gives_head id x (least l q (milli x.quantity_remaining))
            (picks l (q - least l q (milli x.quantity_remaining)) bs) other
          ∙ none_given)
      | inr given ↦ inr (inr given)
    ])
  ]

  differs :
      (x c : Batch d) (bs : List (Batch d)) → All (λ y. y.id ≢ x.id) bs → Among c bs → x.id ≢ c.id
  differs x c bs u m e = All-at (λ y. y.id ≢ x.id) bs c m u (sym e)

  -- Of the batches in the order FEFO, one that expires earlier gives all it has before one that expires
  -- later gives anything.
  picks_earlier_first :
      (q eb ec : ℕ) (b c : Batch d) (bs : List (Batch d))
      → IsFefo bs
      → UniqueIds bs
      → Among b bs
      → Among c bs
      → b.expiration_date ≡ some eb
      → c.expiration_date ≡ some ec
      → eb < ec
      → (gives c.id (picks l q bs) ≡ false)
        ⊎ Among (b.id, milli b.quantity_remaining) (picks l q bs)
  picks_earlier_first q eb ec b c [] f u mb mc hb hc less = absurd mb
  picks_earlier_first q eb ec b c (x ∷ xs) f u (inl is_b) (inl is_c) hb hc less =
      absurd (clash eb ec (sym hb ∙ ap (λ y. y.expiration_date) (sym is_b ∙ is_c) ∙ hc) less)
  picks_earlier_first q eb ec b c (x ∷ xs) f u (inl is_b) (inr mc) hb hc less =
      subst
        (λ y.
          (gives c.id (picks l q (x ∷ xs)) ≡ false)
          ⊎ Among (y.id, milli y.quantity_remaining) (picks l q (x ∷ xs)))
        is_b (head_first q c.id x xs (differs x c xs u.0 mc))
  picks_earlier_first q eb ec b c (x ∷ xs) f u (inr mb) (inl is_c) hb hc less = absurd (
      behind_later x.expiration_date b.expiration_date x.received_at b.received_at eb ec
        (ap (λ y. y.expiration_date) is_c ∙ hc) hb less (All-at (Before x) xs b mb f.0))
  picks_earlier_first q eb ec b c (x ∷ xs) f u (inr mb) (inr mc) hb hc less =
      behind q c.id x xs (b.id, milli b.quantity_remaining) (differs x c xs u.0 mc)
        (picks_earlier_first (q - least l q (milli x.quantity_remaining)) eb ec b c xs f.1 u.1 mb mc
          hb hc less)

  -- For an item whose batches all have an expiration date and distinct ids, with quantities and
  -- active stock within the precision and active batches in at most one branch, consuming a
  -- positive quantity of at most the active stock succeeds with one event, and of two active
  -- batches the one that expires later gives nothing, or the details of the event say that the one
  -- that expires earlier gave all it had.
  pub earlier_batch_first :
      (quantity : d.Num) (date touched : ℕ) (item : Item d) (b c : Batch d) (eb ec : ℕ)
      → AllFit l item.batches
      → UniqueIds item.batches
      → stock l (active_at date) item.batches < limit
      → Fits quantity
      → 0 < milli quantity
      → milli quantity ≤ stock l (active_at date) item.batches
      → length (active_branches date item) ≤ 1
      → IsUniform true item.batches
      → Among b item.batches
      → Among c item.batches
      → active_at date b ≡ true
      → active_at date c ≡ true
      → b.expiration_date ≡ some eb
      → c.expiration_date ≡ some ec
      → eb < ec
      → (item' : Item d) × (branch : String) × (details : List BatchDetail) × (consume {d = d}
            quantity date touched item
          ≡ ok item')
        × (item'.domain_events
            ≡ item.domain_events
              ++ (stock_consumed (record {
                item_id = item.id;
                tenant_id = item.tenant_id;
                branch_id = branch;
                quantity = Quantity.get_value d quantity;
                consumed_batches = details;
                occurred_on = date;
              })
                  ∷ []))
        × ((gives c.id (map (read l) details) ≡ false)
            ⊎ Among (b.id, milli b.quantity_remaining) (map (read l) details))
  earlier_batch_first quantity date touched item b c eb ec fit unique small fq positive enough one
        dated mb mc ab ac hb hc less =
      let (item', branch, details, run, events, took) =
        consume_takes l quantity date touched item fit unique small fq positive enough one in
      let active = filter (active_at date) item.batches in
      let share =
        picks_earlier_first (milli quantity) eb ec b c (sort active)
          (sort-IsFefo true active (
            All-filter (λ x. is_some x.expiration_date ≡ true) (active_at date) item.batches dated))
          (UniqueIds-sort active (UniqueIds-filter (active_at date) item.batches unique))
          (Among-sort active b (Among-filter (active_at date) item.batches b ab mb))
          (Among-sort active c (Among-filter (active_at date) item.batches c ac mc)) hb hc less in
      (
        item',
        branch,
        details,
        run,
        events,
        subst (λ told. (gives c.id told ≡ false) ⊎ Among (b.id, milli b.quantity_remaining) told)
            (sym took.1) share,
      )
