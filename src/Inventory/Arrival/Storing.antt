-- ===== src/Inventory/Arrival/Storing.antt =====
-- What a reception leaves in the tables.
use komi_saas_api.Base.{
  ℕ, String, none, some, Bool, true, List, [], ◌∷◌, ◌++◌, map, find, str_eq, ◌≡◌, refl, ap, ◌∙◌,
  arith, Option-cases, Bool-cases, eq_refl, inl, inr,
}
use komi_saas_api.Base.Throws.{ok, Result-cases}
use komi_saas_api.Shared.Decimal.{Decimal}
use komi_saas_api.Shared.Quantity
use komi_saas_api.Inventory.Batch.{Batch}
use komi_saas_api.Inventory.Event.{Event}
use komi_saas_api.Inventory.Item.{Item, Reception, received_batch}
use komi_saas_api.Inventory.Item.Dating.{arrived, received_adds}
use komi_saas_api.Inventory.Repository.{
  BatchRow, Database, find_by_id, save, upsert, upsert_all, batch_key,
}
use komi_saas_api.Inventory.UseCase.Scope.{found_as}
use komi_saas_api.Inventory.Arrival.{ReceiveParams, receive_stock, unit_cost_of}

module _ {ℓ} {A : Type ℓ} (key : A → String) where
  find-upsert :
      (x : A) (rows : List A) → find (λ y. str_eq (key y) (key x)) (upsert key x rows) ≡ some x
  unfolding upsert
  find-upsert x [] = ground (arith, eq_refl (key x))
  find-upsert x (y ∷ ys) = ground (arith, eq_refl (key x), find-upsert x ys)

  upsert_all-append :
      (xs : List A) (x : A) (rows : List A)
      → upsert_all key (xs ++ (x ∷ [])) rows ≡ upsert key x (upsert_all key xs rows)
  unfolding upsert_all
  upsert_all-append [] x rows = refl
  upsert_all-append (y ∷ ys) x rows = upsert_all-append ys x (upsert key y rows)

map-append :
    {A B : Type 0} (f : A → B) (xs : List A) (x : A)
    → map f (xs ++ (x ∷ [])) ≡ map f xs ++ (f x ∷ [])
map-append f [] x = refl
map-append f (y ∷ ys) x = ap (λ t. f y ∷ t) (map-append f ys x)

module _ {d : Decimal} where
  -- A save writes the last batch of the item as it is.
  saved_last :
      (item : Item d) (bs : List (Batch d)) (b : Batch d) (db : Database d)
      → item.batches ≡ bs ++ (b ∷ [])
      → find (λ row. str_eq row.batch.id b.id) (save item db).batches
        ≡ some (record { item_id = item.id; batch = b })
  unfolding save
  saved_last item bs b db e =
      let row_of : Batch d → BatchRow d = λ c. record { item_id = item.id; batch = c } in
      rw
        (
          e,
          map-append row_of bs b,
          upsert_all-append batch_key (map row_of bs) (row_of b) db.batches,
        )
        (find-upsert batch_key (row_of b) (upsert_all batch_key (map row_of bs) db.batches))

  keeps_id :
      (p : Reception d) (batch_id : String) (clock : ℕ × ℕ × ℕ) (item item' : Item d)
      → received_batch p batch_id clock item ≡ ok item'
      → item'.id ≡ item.id
  unfolding received_batch
  keeps_id p batch_id (made, told, touched) item item' e = ground arith

module _ {d : Decimal} (upper_case : String → String)
    (exists_in_tenant : String → String → Bool) where
  -- What a successful call has been through.
  received :
      (params : ReceiveParams) (batch_id : String) (clock : ℕ × ℕ × ℕ) (db db' : Database d)
      (events : List Event)
      → receive_stock upper_case exists_in_tenant params batch_id clock db ≡ ok (db', events)
      → (item item' : Item d) × (p : Reception d) × (exists_in_tenant params.branch_id
            params.tenant_id
          ≡ true)
        × (find_by_id params.item_id params.tenant_id none db ≡ some item)
        × (Quantity.of d params.quantity_received ≡ ok p.quantity_received)
        × (p.branch_id ≡ params.branch_id)
        × (received_batch p batch_id clock item ≡ ok item')
        × (db' ≡ save item' db)
  unfolding receive_stock
  received params batch_id clock db db' events run =
      elim (Bool-cases (exists_in_tenant params.branch_id params.tenant_id)) [
        | inr unknown ↦ absurd (ground arith)
        | inl known ↦ elim (Option-cases (find_by_id params.item_id params.tenant_id none db)) [
          | inl missing ↦ absurd (ground arith)
          | inr (item, found) ↦ elim (Result-cases (Quantity.of d params.quantity_received)) [
            | inr (e, bad) ↦ absurd (ground arith)
            | inl (quantity, good) ↦
                elim (Result-cases (unit_cost_of d upper_case params.total_cost_amount quantity)) [
                  | inr (e, bad) ↦ absurd (ground arith)
                  | inl (cost, priced) ↦
                      let p : Reception d = record {
                        branch_id = params.branch_id;
                        quantity_received = quantity;
                        unit_cost = cost;
                        expiration_date = params.expiration_date;
                        received_at = params.received_at;
                      } in
                      elim (Result-cases (received_batch p batch_id clock item)) [
                        | inr (e, refused) ↦ absurd (ground arith)
                        | inl (item', done) ↦
                            (item, item', p, known, found, good, refl, done, ground arith)
                      ]
                ]
          ]
        ]
      ]

  -- A reception that succeeds names a branch of the tenant and leaves, under the id drawn, a batch
  -- of that item in that branch which still holds all of the quantity received.
  pub reception_stored :
      (params : ReceiveParams) (batch_id : String) (clock : ℕ × ℕ × ℕ) (db db' : Database d)
      (events : List Event)
      → receive_stock upper_case exists_in_tenant params batch_id clock db ≡ ok (db', events)
      → (b : Batch d) × (exists_in_tenant params.branch_id params.tenant_id ≡ true)
        × (find (λ row. str_eq row.batch.id batch_id) db'.batches
            ≡ some (record { item_id = params.item_id; batch = b }))
        × (b.branch_id ≡ params.branch_id)
        × (Quantity.of d params.quantity_received ≡ ok b.quantity_received)
        × (b.quantity_remaining ≡ b.quantity_received)
  reception_stored params batch_id (made, told, touched) db db' events run =
      let (item, item', p, known, found, quantity, branch, done, saved) =
        received params batch_id (made, told, touched) db db' events run in
      let b : Batch d = arrived p batch_id made item in
      let (grown, _, _) = received_adds p batch_id made told touched item item' done in
      let same : item'.id ≡ params.item_id =
        keeps_id p batch_id (made, told, touched) item item' done
        ∙ (found_as params.item_id params.tenant_id none db item found).0 in
      (
        b,
        known,
        ap (λ t. find (λ row. str_eq row.batch.id batch_id) t.batches) saved
            ∙ (saved_last item' item.batches b db grown
                ∙ ap (λ i. some (record { item_id = i; batch = b })) same),
        branch,
        quantity,
        refl,
      )
