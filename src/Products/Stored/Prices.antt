-- ===== src/Products/Stored/Prices.antt =====
-- The prices in the table agree with the costs and the margins beside them.
use komi_saas_api.Base.{
  ℕ, String, Option, none, some, true, false, not, ◌||◌, List, [], ◌∷◌, ◌++◌, map, ◌≡◌, arith, All,
  All-append, Bool-cases, inl, inr, subst, str_eq,
}
use komi_saas_api.Base.Throws.{ok, bind-ok, then-ok, throw_if}
use komi_saas_api.Shared.Decimal.{Decimal}
use komi_saas_api.Shared.Status.{EntityStatus, is, transition_to}
use komi_saas_api.Products.Failure.{name_already_exists, not_modified, not_stored}
use komi_saas_api.Products.Profitability.{round, margin_of}
use komi_saas_api.Products.Sku.{from_number}
use komi_saas_api.Products.Product as Product_ops
use komi_saas_api.Products.Product.{Product, ProductData, ProductEvent, change_status}
use komi_saas_api.Products.Product.Life as Life
use komi_saas_api.Products.Product.Pricing.{IsPriced, price_agrees, updated-IsPriced, step-IsPriced}
use komi_saas_api.Products.Table as Table
use komi_saas_api.Products.Table.{
  ProductRow, Database, Ports, has_id, to_entity, written, save, create_name, exists_by_name,
}
use komi_saas_api.Products.Requests.{
  CreateParams, UpdateParams, ensure_tenant, ensure_category, ensure_given_category,
  next_sku_sequence, money, or_not_found, the_product, has_changes, read_data, with_status,
  create_product, update_product, delete_product,
}
use komi_saas_api.Products.Requests as Requests
use komi_saas_api.Products.Stored.{Step, Steps, start, then_step, created, updated, deleted}

module _ (d : Decimal) where
  -- The columns of a row: the price is not 0.00, and the margin that it leaves over the cost is the
  -- stored margin to two decimal places, which is from 0 to less than 100.
  pub record RowIsPriced (row : ProductRow) : Type 0 where
    pub cost : d.Num
    pub price : d.Num
    pub margin : d.Num
    pub cost_read : d.parse row.cost ≡ some cost
    pub price_read : d.parse row.base_price ≡ some price
    pub margin_read : d.parse row.profit_margin ≡ some margin
    pub not_free : str_eq row.base_price "0.00" ≡ false
    pub margin_in_range :
        d.is_negative margin || d.greater_than_or_equal_to margin d.hundred ≡ false
    pub agree : round d (margin_of d cost price) ≡ round d margin

  -- A row that is not deleted is priced.
  abbrev pub OnSale : ProductRow → Type 0
  OnSale row = is EntityStatus.deleted row.status ≡ false → RowIsPriced row

  entity_priced : (p : Product d) (a b : ℕ) → IsPriced p → RowIsPriced (to_entity d p a b)
  unfolding to_entity
  entity_priced p a b h = record {
    cost = h.cost;
    price = h.price;
    margin = h.margin;
    cost_read = h.cost_read;
    price_read = h.price_read;
    margin_read = h.margin_read;
    not_free = h.not_free;
    margin_in_range = h.margin_in_range;
    agree = h.agree;
  }

  written-OnSale :
      (p : Product d) (now : ℕ) (rows : List ProductRow)
      → (is EntityStatus.deleted p.status ≡ false → IsPriced p)
      → All OnSale rows
      → All OnSale (map (written d p now) rows)
  written-OnSale p now [] hp h = tt
  written-OnSale p now (r ∷ rows) hp h = (
    elim (Bool-cases (has_id p.id r)) [
      | inl here ↦
          rw here (λ live. entity_priced p r.created_at now (hp (unfold to_entity in live)))
      | inr other ↦ rw other h.0
    ],
    written-OnSale p now rows hp h.1,
  )

module _ (d : Decimal) (ports : Ports) where
  update-OnSale :
      (p : Product d) (now : ℕ) (db db' : Database)
      → Table.update d ports p now db ≡ ok db'
      → (is EntityStatus.deleted p.status ≡ false → IsPriced p)
      → All (OnSale d) db.products
      → All (OnSale d) db'.products
  unfolding Table.update
  update-OnSale p now db db' e hp h =
      let (_, e1) =
        then-ok {check = throw_if (not (ports.accepts (to_entity d p now now) db)) not_stored} e in
      let same : map (written d p now) db.products ≡ db'.products = ground arith in
      subst (All (OnSale d)) same (written-OnSale d p now db.products hp h)

  save-OnSale :
      (p : Product d) (now : ℕ) (db db' : Database)
      → save d ports p now db ≡ ok db'
      → IsPriced p
      → All (OnSale d) db.products
      → All (OnSale d) db'.products
  unfolding save
  save-OnSale p now db db' e hp h =
      let (_, e1) =
        then-ok {check = throw_if (not (ports.accepts (to_entity d p now now) db)) not_stored} e in
      let same : db.products ++ to_entity d p now now ∷ [] ≡ db'.products = ground arith in
      subst (All (OnSale d)) same (
        All-append (OnSale d) db.products (to_entity d p now now ∷ []) h
          ((λ live. entity_priced d p now now hp), tt))

  created-OnSale :
      (params : CreateParams d) (sequence : Option ℕ) (id : String) (now : ℕ) (db db' : Database)
      (events : List (ProductEvent d))
      → create_product ports params sequence id now db ≡ ok (db', events)
      → All (OnSale d) db.products
      → All (OnSale d) db'.products
  unfolding create_product
  created-OnSale params sequence id now db db' events e h =
      let tenant = params.tenant_id in
      let (_, e1) = then-ok {check = ensure_tenant ports tenant} e in
      let (_, e2) = then-ok {check = ensure_category ports tenant params.product_category_id} e1 in
      let (name, _, e3) = bind-ok {r = create_name params.product_name} e2 in
      let (_, e4) =
        then-ok {check = throw_if (exists_by_name ports name tenant db) (name_already_exists name)}
          e3 in
      let (number, _, e5) = bind-ok {r = next_sku_sequence sequence} e4 in
      let (price, _, e6) = bind-ok {r = money {d = d} ports params.product_base_price} e5 in
      let (cost, _, e7) = bind-ok {r = money {d = d} ports params.product_cost} e6 in
      let values : ProductData d = record {
        product_category_id = params.product_category_id;
        product_name = name;
        product_description = params.product_description;
        product_img_url = params.product_img_url;
        product_base_price = price;
        product_cost = cost;
        profit_margin = params.profit_margin;
      } in
      let (p, ep, e8) =
        bind-ok {r = Product_ops.create tenant (from_number number) values id now} e7 in
      let (db1, es, e9) = bind-ok {r = save d ports p now db} e8 in
      let same : db1 ≡ db' = ground arith in
      let priced = price_agrees tenant (from_number number) values id now ep Life.start in
      subst (λ (x : Database). All (OnSale d) x.products) same
        (save-OnSale p now db db1 es priced h)

  with_status-IsPriced :
      (next : Option EntityStatus) (now : ℕ) (p q : Product d)
      → with_status next now p ≡ ok q
      → IsPriced p
      → IsPriced q
  with_status-IsPriced none now p q e h = let same : p ≡ q = ground arith in subst IsPriced same h
  with_status-IsPriced (some next) now p q e h = elim (Bool-cases (is next p.status)) [
    | inl already ↦ let same : p ≡ q = ground arith in subst IsPriced same h
    | inr other ↦ step-IsPriced (Life.status_changed next now (ground arith)) h
  ]

  updated-pair :
      (values : ProductData d) (now : ℕ) (p q : Product d)
      → Requests.updated (Product_ops.update values now p) ≡ ok q
      → Product_ops.update values now p ≡ (ok tt, q)
  unfolding Product_ops.update
  updated-pair values now p q e = ground arith

  updated-OnSale :
      (params : UpdateParams d) (now : ℕ) (db db' : Database)
      → update_product ports params now db ≡ ok db'
      → All (OnSale d) db.products
      → All (OnSale d) db'.products
  unfolding update_product
  updated-OnSale params now db db' e h =
      let tenant = params.tenant_id in
      let (_, e1) = then-ok {check = ensure_tenant ports tenant} e in
      let (p, _, e2) = bind-ok {r = the_product {d = d} ports params.id tenant db} e1 in
      let (_, e3) =
        then-ok {check = ensure_given_category ports tenant params.product_category_id} e2 in
      let (_, e4) = then-ok {check = throw_if (not (has_changes params p)) not_modified} e3 in
      let (values, _, e5) = bind-ok {r = read_data ports params p} e4 in
      let (p', eu, e6) = bind-ok {r = Requests.updated (Product_ops.update values now p)} e5 in
      let (p'', es, e7) = bind-ok {r = with_status params.status now p'} e6 in
      let priced = updated-IsPriced p p' values now (updated-pair values now p p' eu) in
      update-OnSale p'' now db db' e7
        (λ live. with_status-IsPriced params.status now p' p'' es priced) h

  delete-status :
      (user : String) (now : ℕ) (p q : Product d)
      → Product_ops.delete user now p ≡ ok q
      → is EntityStatus.deleted q.status ≡ true
  unfolding Product_ops.delete transition_to is
  delete-status user now p q e = ground arith

  deleted-OnSale :
      (id tenant user : String) (now : ℕ) (db db' : Database) (events : List (ProductEvent d))
      → delete_product {d = d} ports id tenant user now db ≡ ok (db', events)
      → All (OnSale d) db.products
      → All (OnSale d) db'.products
  unfolding delete_product
  deleted-OnSale id tenant user now db db' events e h =
      let (_, e1) = then-ok {check = ensure_tenant ports tenant} e in
      let (p, _, e2) = bind-ok {r = the_product {d = d} ports id tenant db} e1 in
      let (p', ed, e3) = bind-ok {r = Product_ops.delete user now p} e2 in
      let (db1, es, e4) = bind-ok {r = Table.update d ports p' now db} e3 in
      let same : db1 ≡ db' = ground arith in
      subst (λ (x : Database). All (OnSale d) x.products) same
        (update-OnSale p' now db db1 es
          (λ live. absurd (ground (arith, delete-status user now p p' ed))) h)

  step-OnSale :
      {db db' : Database}
      → Step d ports db db'
      → All (OnSale d) db.products
      → All (OnSale d) db'.products
  step-OnSale {db} {db'} (created params sequence id now events new e) h =
      created-OnSale params sequence id now db db' events e h
  step-OnSale {db} {db'} (updated params now e) h = updated-OnSale params now db db' e h
  step-OnSale {db} {db'} (deleted id tenant user now events e) h =
      deleted-OnSale id tenant user now db db' events e h

  -- Through any sequence of creations, updates and deletions of products that succeed, a table
  -- keeps that each row that is not deleted has a price that is not written 0.00, a margin from 0
  -- to less than 100, and a price that leaves that margin over its cost to two decimals.
  pub stored_prices_agree :
      {db db' : Database}
      → Steps d ports db db'
      → All (OnSale d) db.products
      → All (OnSale d) db'.products
  stored_prices_agree start h = h
  stored_prices_agree (then_step s rest) h = stored_prices_agree rest (step-OnSale s h)
