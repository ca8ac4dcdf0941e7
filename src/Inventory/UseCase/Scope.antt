-- ===== src/Inventory/UseCase/Scope.antt =====
-- What a use case that loads an item for one branch does to the others.
use komi_saas_api.Base.{
  ℕ, String, Option, some, List, [], ◌∷◌, ◌≡◌, ◌≢◌, sym, ◌∙◌, arith, eq_iff, any, str_eq,
  Option-cases, inl, inr, find, ◌&&◌, ap,
}
use komi_saas_api.Base.Throws.{ok, Result-cases}
use komi_saas_api.Shared.Decimal.{Decimal}
use komi_saas_api.Shared.Quantity
use komi_saas_api.Inventory.Batch.{now_or}
use komi_saas_api.Inventory.Event.{Event}
use komi_saas_api.Inventory.Item.{Item}
use komi_saas_api.Inventory.Stock
use komi_saas_api.Inventory.Repository.{
  ItemRow, ConfigRow, Database, find_by_id, save, branch_configs_of,
}
use komi_saas_api.Inventory.Repository.Reconcile.{Absent, OnlyRow, save_deletes, load_leaves_out}
use komi_saas_api.Inventory.UseCase.{ConsumeParams, consume_stock}

module _ {d : Decimal} where
  -- Consuming changes neither the id of an item nor its minimums.
  consume_keeps :
      (quantity : d.Num) (date touched : ℕ) (item item' : Item d)
      → Stock.consume {d = d} quantity date touched item ≡ ok item'
      → (item'.id ≡ item.id) × (item'.branch_configs ≡ item.branch_configs)
  unfolding Stock.consume
  consume_keeps quantity date touched item item' e = (ground arith, ground arith)

  found_id :
      (id tenant : String) (row : ItemRow d) (rows : List (ItemRow d))
      → find (λ row. str_eq row.id id && str_eq row.tenant_id tenant) rows ≡ some row
      → row.id ≡ id
  found_id id tenant row [] e = cc
  found_id id tenant row (x ∷ xs) e = ground (arith, eq_iff x.id id, found_id id tenant row xs)

  pub found_as :
      (id tenant : String) (branch : Option String) (db : Database d) (item : Item d)
      → find_by_id id tenant branch db ≡ some item
      → (item.id ≡ id) × (item.branch_configs ≡ branch_configs_of id branch db)
  unfolding find_by_id
  found_as id tenant branch db item e =
      elim (Option-cases (find (λ row. str_eq row.id id && str_eq row.tenant_id tenant) db.items)) [
        | inl missing ↦ ground arith
        | inr (row, er) ↦
            let same : row.id ≡ id = found_id id tenant row db.items er in ground (arith, same)
      ]

  -- What a successful call has been through.
  consumed :
      (params : ConsumeParams) (now touched : ℕ) (db db' : Database d) (events : List Event)
      → consume_stock params now touched db ≡ ok (db', events)
      → (item item' : Item d) × (quantity : d.Num) × (find_by_id params.item_id params.tenant_id
            (some params.branch_id)
            db
          ≡ some item)
        × (Stock.consume {d = d} quantity (now_or params.consumed_at now) touched item ≡ ok item')
        × (db' ≡ save item' db)
        × (events ≡ item'.domain_events)
  unfolding consume_stock
  consumed params now touched db db' events run =
      elim (Option-cases (find_by_id params.item_id params.tenant_id (some params.branch_id) db)) [
        | inl missing ↦ absurd (cc run)
        | inr (item, found) ↦ elim (Result-cases (Quantity.of d params.quantity)) [
          | inr (e, bad) ↦ absurd (ground arith)
          | inl (quantity, good) ↦
              elim (Result-cases
                (Stock.consume {d = d} quantity (now_or params.consumed_at now) touched item)) [
                  | inr (e, refused) ↦ absurd (ground arith)
                  | inl (item', done) ↦
                      (item, item', quantity, found, done, ground arith, ground arith)
                ]
        ]
      ]

  -- When a consumption in one branch succeeds, no minimum of the item in another branch is left in
  -- the table, where the row of that minimum is the only one with its id.
  pub consume_deletes_overrides :
      (params : ConsumeParams) (now touched : ℕ) (db db' : Database d) (events : List Event)
      (r : ConfigRow d)
      → consume_stock params now touched db ≡ ok (db', events)
      → OnlyRow r db.configs
      → r.item_id ≡ params.item_id
      → r.config.branch_id ≢ params.branch_id
      → Absent r.config.id db'.configs
  unfolding save branch_configs_of
  consume_deletes_overrides params now touched db db' events r run only mine other =
      let (item, item', quantity, found, done, saved, _) =
        consumed params now touched db db' events run in
      let (same_id, loaded) =
        found_as params.item_id params.tenant_id (some params.branch_id) db item found in
      let (kept_id, kept) =
        consume_keeps quantity (now_or params.consumed_at now) touched item item' done in
      rw saved (
        save_deletes item' r db.configs only (mine ∙ sym (kept_id ∙ same_id)) (
          ap (any (λ c. str_eq c.id r.config.id)) (kept ∙ loaded)
          ∙ load_leaves_out params.item_id params.branch_id r db.configs only other))
