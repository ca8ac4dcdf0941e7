-- ===== src/Products/Stored/Deleted/Steps.antt =====
-- The rows of deleted products, through any requests.
use komi_saas_api.Base.{
  ℕ, String, Option, some, false, not, List, [], ◌∷◌, ◌++◌, map, find, any, str_eq, ◌≡◌, arith,
  Bool-cases, inl, inr, subst, ◌∙◌, eq_iff,
}
use komi_saas_api.Base.Apart.{Apart, Apart-append, any-none, find-passes}
use komi_saas_api.Base.Throws.{ok, bind-ok, then-ok, throw_if}
use komi_saas_api.Shared.Decimal.{Decimal}
use komi_saas_api.Shared.Status.{EntityStatus, is-deleted}
use komi_saas_api.Products.Failure.{name_already_exists, not_modified, not_stored}
use komi_saas_api.Products.Sku.{from_number}
use komi_saas_api.Products.Product as Product_ops
use komi_saas_api.Products.Product.{Product, ProductData, ProductEvent}
use komi_saas_api.Products.Table as Table
use komi_saas_api.Products.Table.{
  ProductRow, Database, Ports, has_id, same_key, to_entity, written, save, create_name,
  exists_by_name,
}
use komi_saas_api.Products.Requests.{
  CreateParams, UpdateParams, ensure_tenant, ensure_category, ensure_given_category,
  next_sku_sequence, money, the_product, has_changes, read_data, with_status, create_product,
  update_product, delete_product,
}
use komi_saas_api.Products.Requests as Requests
use komi_saas_api.Products.Stored.{Step, Steps, start, then_step, created, updated, deleted}
use komi_saas_api.Products.Stored.Deleted.{
  clash, only_one, find-append, find-written, Apart-written, with_status-id, update-id, delete-id,
  created_id, found_row,
}

-- The table has a row of a deleted product under its id, and no two rows of one id.
abbrev pub Rests : ProductRow → List ProductRow → Type 0
Rests r rows =
    Apart clash rows × (find (has_id r.id) rows ≡ some r) × (r.status ≡ EntityStatus.deleted)

module _ (d : Decimal) (ports : Ports) where
  update-Rests :
      (p : Product d) (now : ℕ) (db db' : Database) (r : ProductRow)
      → Table.update d ports p now db ≡ ok db'
      → str_eq p.id r.id ≡ false
      → Rests r db.products
      → Rests r db'.products
  unfolding Table.update
  update-Rests p now db db' r e other (apart, there, gone) =
      let (_, e1) =
        then-ok {check = throw_if (not (ports.accepts (to_entity d p now now) db)) not_stored} e in
      let same : map (written d p now) db.products ≡ db'.products = ground arith in
      subst (Rests r) same (
        Apart-written d p now db.products apart,
        find-written d p now r.id r db.products other there,
        gone,
      )

  save-Rests :
      (p : Product d) (now : ℕ) (db db' : Database) (r : ProductRow)
      → save d ports p now db ≡ ok db'
      → any (has_id p.id) db.products ≡ false
      → Rests r db.products
      → Rests r db'.products
  unfolding save to_entity
  save-Rests p now db db' r e new (apart, there, gone) =
      let (_, e1) =
        then-ok {check = throw_if (not (ports.accepts (to_entity d p now now) db)) not_stored} e in
      let same : db.products ++ to_entity d p now now ∷ [] ≡ db'.products = ground arith in
      subst (Rests r) same (
        Apart-append clash (to_entity d p now now) db.products apart
            (any-none (has_id p.id) db.products new),
        find-append r.id r (to_entity d p now now) db.products there,
        gone,
      )

  -- A product that is found is not the deleted one.
  found_other :
      (id tenant : String) (db : Database) (p : Product d) (r : ProductRow)
      → the_product ports id tenant db ≡ ok p
      → Rests r db.products
      → str_eq p.id r.id ≡ false
  found_other id tenant db p r e (apart, there, gone) =
      let (a, found, keyed) = found_row d ports id tenant db p e in
      elim (Bool-cases (str_eq p.id r.id)) [
        | inr other ↦ other
        | inl one ↦
            let same : r.id ≡ id = ground (arith, eq_iff p.id r.id) in
            let this : a ≡ r =
              only_one id tenant a r db.products apart found
                (subst (λ i. find (has_id i) db.products ≡ some r) same there) in
            let live = find-passes (same_key id tenant) db.products a found in
            absurd (ground (arith, is-deleted r.status gone))
      ]

  created-Rests :
      (params : CreateParams d) (sequence : Option ℕ) (id : String) (now : ℕ) (db db' : Database)
      (events : List (ProductEvent d)) (r : ProductRow)
      → any (has_id id) db.products ≡ false
      → create_product ports params sequence id now db ≡ ok (db', events)
      → Rests r db.products
      → Rests r db'.products
  unfolding create_product
  created-Rests params sequence id now db db' events r new e h =
      let tenant = params.tenant_id in
      let (_, e1) = then-ok {check = ensure_tenant ports tenant} e in
      let (_, e2) = then-ok {check = ensure_category ports tenant params.product_category_id} e1 in
      let (name, _, e3) = bind-ok {r = create_name params.product_name} e2 in
      let (_, e4) =
        then-ok {check = throw_if (exists_by_name ports name tenant db) (name_already_exists name)}
          e3 in
      let (number, _, e5) = bind-ok {r = next_sku_sequence sequence} e4 in
      let (price, _, e6) = bind-ok {r = money {d = d} ports params.product_base_price} e5 in
      let (cost, _, e7) = bind-ok {r = money {d = d} ports params.product_cost} e6 in
      let values : ProductData d = record {
        product_category_id = params.product_category_id;
        product_name = name;
        product_description = params.product_description;
        product_img_url = params.product_img_url;
        product_base_price = price;
        product_cost = cost;
        profit_margin = params.profit_margin;
      } in
      let (p, ep, e8) =
        bind-ok {r = Product_ops.create tenant (from_number number) values id now} e7 in
      let (db1, es, e9) = bind-ok {r = save d ports p now db} e8 in
      let same : db1 ≡ db' = ground arith in
      let named : p.id ≡ id = created_id d tenant (from_number number) values id now p ep in
      subst (λ (x : Database). Rests r x.products) same
        (save-Rests p now db db1 r es (rw named new) h)

  updated-Rests :
      (params : UpdateParams d) (now : ℕ) (db db' : Database) (r : ProductRow)
      → update_product ports params now db ≡ ok db'
      → Rests r db.products
      → Rests r db'.products
  unfolding update_product
  updated-Rests params now db db' r e h =
      let tenant = params.tenant_id in
      let (_, e1) = then-ok {check = ensure_tenant ports tenant} e in
      let (p, ep, e2) = bind-ok {r = the_product {d = d} ports params.id tenant db} e1 in
      let (_, e3) =
        then-ok {check = ensure_given_category ports tenant params.product_category_id} e2 in
      let (_, e4) = then-ok {check = throw_if (not (has_changes params p)) not_modified} e3 in
      let (values, _, e5) = bind-ok {r = read_data ports params p} e4 in
      let (p', eu, e6) = bind-ok {r = Requests.updated (Product_ops.update values now p)} e5 in
      let (p'', es, e7) = bind-ok {r = with_status params.status now p'} e6 in
      let same = with_status-id d params.status now p' p'' es ∙ update-id d values now p p' eu in
      update-Rests p'' now db db' r e7 (rw same (found_other params.id tenant db p r ep h)) h

  deleted-Rests :
      (id tenant user : String) (now : ℕ) (db db' : Database) (events : List (ProductEvent d))
      (r : ProductRow)
      → delete_product {d = d} ports id tenant user now db ≡ ok (db', events)
      → Rests r db.products
      → Rests r db'.products
  unfolding delete_product
  deleted-Rests id tenant user now db db' events r e h =
      let (_, e1) = then-ok {check = ensure_tenant ports tenant} e in
      let (p, ep, e2) = bind-ok {r = the_product {d = d} ports id tenant db} e1 in
      let (p', ed, e3) = bind-ok {r = Product_ops.delete user now p} e2 in
      let (db1, es, e4) = bind-ok {r = Table.update d ports p' now db} e3 in
      let same : db1 ≡ db' = ground arith in
      subst (λ (x : Database). Rests r x.products) same
        (update-Rests p' now db db1 r es
          (rw (delete-id d user now p p' ed) (found_other id tenant db p r ep h)) h)

  step-Rests :
      {db db' : Database} (r : ProductRow)
      → Step d ports db db'
      → Rests r db.products
      → Rests r db'.products
  step-Rests {db} {db'} r (created params sequence id now events new e) h =
      created-Rests params sequence id now db db' events r new e h
  step-Rests {db} {db'} r (updated params now e) h = updated-Rests params now db db' r e h
  step-Rests {db} {db'} r (deleted id tenant user now events e) h =
      deleted-Rests id tenant user now db db' events r e h

  -- Through any sequence of creations, updates and deletions of products that succeed, where each
  -- creation draws an id that no row has, a table with one row to an id keeps the row of a deleted
  -- product as it is, and still has one row to an id.
  pub deleted_rows_stay :
      {db db' : Database} (r : ProductRow)
      → Steps d ports db db'
      → Rests r db.products
      → Rests r db'.products
  deleted_rows_stay r start h = h
  deleted_rows_stay r (then_step s rest) h = deleted_rows_stay r rest (step-Rests r s h)
