-- ===== src/Products/Stored/Deleted.antt =====
-- What the requests on products do to a row of another id, and which row they find.
pub mod Steps
use komi_saas_api.Base.{
  ℕ, String, Option, none, some, Bool, true, false, not, List, [], ◌∷◌, ◌++◌, map, find, any,
  str_eq, ◌≡◌, refl, arith, All, All-map, Bool-cases, Option-cases, inl, inr, subst, sym, ◌∙◌,
  eq_iff, is_some,
}
use komi_saas_api.Base.Apart.{
  Apart, Apart-append, Apart-map, any-none, find-All, find-passes, All-anything,
}
use komi_saas_api.Base.Throws.{Result, ok, err, bind-ok, then-ok, throw_if}
use komi_saas_api.Shared.Value.{create_uuid}
use komi_saas_api.Shared.Decimal.{Decimal}
use komi_saas_api.Shared.Money as Money_ops
use komi_saas_api.Shared.Status.{EntityStatus, is, transition_to, is-deleted}
use komi_saas_api.Products.Failure.{
  ProductError, invalid_uuid, name_already_exists, not_modified, not_stored, lift_shared,
}
use komi_saas_api.Products.Profitability.{create_margin}
use komi_saas_api.Products.Sku.{from_number}
use komi_saas_api.Products.Product as Product_ops
use komi_saas_api.Products.Product.{Product, ProductData, ProductEvent, change_status}
use komi_saas_api.Products.Table as Table
use komi_saas_api.Products.Table.{
  ProductRow, Database, Ports, has_id, same_key, to_entity, written, save, create_name,
  exists_by_name, to_domain, optional_domain, find_by_id,
}
use komi_saas_api.Products.Requests.{
  CreateParams, UpdateParams, ensure_tenant, ensure_category, ensure_given_category,
  next_sku_sequence, money, or_not_found, the_product, has_changes, read_data, with_status,
  create_product, update_product, delete_product,
}
use komi_saas_api.Products.Requests as Requests

-- Two rows with one id, which the primary key does not allow.
abbrev pub clash : ProductRow → ProductRow → Bool
clash r s = str_eq r.id s.id

-- A row that is first with its id is the only one with it.
pub only_one :
    (id tenant : String) (a b : ProductRow) (rows : List ProductRow)
    → Apart clash rows
    → find (same_key id tenant) rows ≡ some a
    → find (has_id id) rows ≡ some b
    → a ≡ b
only_one id tenant a b [] h ea eb = absurd (ground arith)
only_one id tenant a b (x ∷ rows) h ea eb = elim (Bool-cases (same_key id tenant x)) [
  | inl here ↦ ground arith
  | inr later ↦
      let there : find (same_key id tenant) rows ≡ some a = ground arith in
      let (apart, key) =
        find-All (λ (y : ProductRow). clash x y ≡ false) (same_key id tenant) rows a there h.0 in
      elim (Bool-cases (has_id id x)) [
        | inl this ↦ absurd (ground (arith, eq_iff x.id id, eq_iff a.id id, eq_iff x.id a.id))
        | inr other ↦ only_one id tenant a b rows h.1 there (ground arith)
      ]
]

pub find-append :
    (id : String) (r new : ProductRow) (rows : List ProductRow)
    → find (has_id id) rows ≡ some r
    → find (has_id id) (rows ++ new ∷ []) ≡ some r
find-append id r new [] e = absurd (ground arith)
find-append id r new (x ∷ rows) e = ground (arith, find-append id r new rows)

module _ (d : Decimal) where
  -- A row of another id is found as it was.
  pub find-written :
      (p : Product d) (now : ℕ) (id : String) (r : ProductRow) (rows : List ProductRow)
      → str_eq p.id id ≡ false
      → find (has_id id) rows ≡ some r
      → find (has_id id) (map (written d p now) rows) ≡ some r
  unfolding to_entity
  find-written p now id r [] other e = absurd (ground arith)
  find-written p now id r (x ∷ rows) other e =
      ground (arith, eq_iff x.id p.id, find-written p now id r rows other)

  written_apart :
      (p : Product d) (now : ℕ) (x y : ProductRow)
      → clash x y ≡ false
      → clash (written d p now x) (written d p now y) ≡ false
  unfolding to_entity
  written_apart p now x y e = ground (arith, eq_iff x.id p.id, eq_iff y.id p.id, eq_iff x.id y.id)

  pub Apart-written :
      (p : Product d) (now : ℕ) (rows : List ProductRow)
      → Apart clash rows
      → Apart clash (map (written d p now) rows)
  Apart-written p now rows h =
      Apart-map clash (λ (r : ProductRow). Unit {0}) (written d p now)
        (λ x y _ _. written_apart p now x y) rows (All-anything rows) h

  pub with_status-id :
      (next : Option EntityStatus) (now : ℕ) (p q : Product d)
      → with_status next now p ≡ ok q
      → q.id ≡ p.id
  unfolding change_status
  with_status-id none now p q e = ground arith
  with_status-id (some EntityStatus.active) now p q e = ground arith
  with_status-id (some EntityStatus.inactive) now p q e = ground arith
  with_status-id (some EntityStatus.archived) now p q e = ground arith
  with_status-id (some EntityStatus.deleted) now p q e = ground arith

  pub update-id :
      (values : ProductData d) (now : ℕ) (p q : Product d)
      → Requests.updated (Product_ops.update values now p) ≡ ok q
      → q.id ≡ p.id
  unfolding Product_ops.update
  update-id values now p q e = ground arith

  pub created_id :
      (tenant sku : String) (values : ProductData d) (id : String) (now : ℕ) (p : Product d)
      → Product_ops.create tenant sku values id now ≡ ok p
      → p.id ≡ id
  unfolding Product_ops.create
  created_id tenant sku values id now p e = ground arith

  pub delete-id :
      (user : String) (now : ℕ) (p q : Product d)
      → Product_ops.delete user now p ≡ ok q
      → q.id ≡ p.id
  unfolding Product_ops.delete
  delete-id user now p q e = ground arith

  module _ (ports : Ports) where
    to_domain-id : (row : ProductRow) (p : Product d) → to_domain d ports row ≡ ok p → p.id ≡ row.id
    unfolding to_domain
    to_domain-id row p e =
        let (id, ei, e1) = bind-ok {r = create_uuid ports.valid_uuid invalid_uuid row.id} e in
        let same : id ≡ row.id = unfold create_uuid in ground arith in
        let (name, _, e2) = bind-ok {r = create_name row.name} e1 in
        let (price, _, e3) =
          bind-ok {r = lift_shared (Money_ops.of d ports.upper_case row.base_price "COP")} e2 in
        let (cost, _, e4) =
          bind-ok {r = lift_shared (Money_ops.of d ports.upper_case row.cost "COP")} e3 in
        let (margin, _, e5) = bind-ok {r = create_margin d row.profit_margin} e4 in ground arith

    found_there :
        (value tenant : String) (db : Database) (found : Option (Product d)) (r : ProductRow)
        → find (same_key value tenant) db.products ≡ some r
        → find_by_id d ports value tenant db ≡ ok found
        → optional_domain d ports (some r) ≡ ok found
    unfolding find_by_id
    found_there value tenant db found r there e = rw there at e

    -- What a product read from the table has of its row.
    pub found_row :
        (id tenant : String) (db : Database) (p : Product d)
        → the_product ports id tenant db ≡ ok p
        → (r : ProductRow) × (find (same_key id tenant) db.products ≡ some r) × (p.id ≡ id)
    unfolding the_product find_by_id or_not_found
    found_row id tenant db p e =
        let (value, ev, e1) = bind-ok {r = create_uuid ports.valid_uuid invalid_uuid id} e in
        let same : value ≡ id = unfold create_uuid in ground arith in
        let (found, ef, e2) = bind-ok {r = find_by_id d ports value tenant db} e1 in
        elim (Option-cases (find (same_key value tenant) db.products)) [
          | inl gone ↦ absurd (ground arith)
          | inr (r, there) ↦
              let (m, em, e3) =
                bind-ok {r = to_domain d ports r} (found_there value tenant db found r there ef) in
              let key = find-passes (same_key value tenant) db.products r there in
              (
                r,
                subst (λ v. find (same_key v tenant) db.products ≡ some r) same there,
                ground (arith, eq_iff r.id value, to_domain-id r m em),
              )
        ]
