-- ===== src/Categories/Names/Reading.antt =====
-- What the requests on categories read from the table.
use komi_saas_api.Base.{
  String, Option, none, some, false, List, find, ◌≡◌, arith, All, All-map, Option-cases, inl, inr,
  eq_iff, subst, or_else,
}
use komi_saas_api.Base.Apart.{any-none, find-All}
use komi_saas_api.Base.Throws.{ok, bind-ok, then-ok, throw_if}
use komi_saas_api.Shared.Value.{create_uuid}
use komi_saas_api.Categories.Category.{already_exists, Category, create_name}
use komi_saas_api.Categories.Table.{
  CategoryRow, Ports, same_key, to_domain, find_by_id, exists_by_name,
}
use komi_saas_api.Categories.Requests.{or_not_found, changed_name}
use komi_saas_api.Categories.Names.{create_name-again, IsKept, Free}

module _ (ports : Ports) where
  Free-name :
      (id tenant name : String) (rows : List CategoryRow)
      → exists_by_name ports name tenant (some id) rows ≡ false
      → All (Free ports id tenant name) rows
  unfolding exists_by_name
  Free-name id tenant name rows e =
      All-map _ (Free ports id tenant name)
        (λ row none_has other. ground (arith, eq_iff row.id id, eq_iff row.tenant_id tenant)) rows
        (any-none _ rows e)

  -- The name that an update leaves is valid and free.
  pub chosen_name :
      (id tenant : String) (given : Option String) (rows : List CategoryRow) (name : Option String)
      (current : String)
      → changed_name ports id tenant given rows ≡ ok name
      → create_name current ≡ ok current
      → All (Free ports id tenant current) rows
      → (create_name (or_else name current) ≡ ok (or_else name current))
        × All (Free ports id tenant (or_else name current)) rows
  unfolding changed_name
  chosen_name id tenant none rows name current e kept free =
      let same : none ≡ name = ground arith in
      subst
        (λ (n : Option String).
          (create_name (or_else n current) ≡ ok (or_else n current))
          × All (Free ports id tenant (or_else n current)) rows)
        same (kept, free)
  chosen_name id tenant (some raw) rows name current e kept free =
      let (value, ev, e1) = bind-ok {r = create_name raw} e in
      let (unheard, e2) =
        then-ok
          {check = throw_if (exists_by_name ports value tenant (some id) rows)
            (already_exists value)}
          e1 in
      let same : some value ≡ name = ground arith in
      subst
        (λ (n : Option String).
          (create_name (or_else n current) ≡ ok (or_else n current))
          × All (Free ports id tenant (or_else n current)) rows)
        same (create_name-again raw value ev, Free-name id tenant value rows (ground arith))

  -- What a category read from the table has of its row.
  pub found_row :
      (id tenant : String) (rows : List CategoryRow) (found : Option Category) (c : Category)
      → find_by_id ports id tenant rows ≡ ok found
      → or_not_found id found ≡ ok c
      → All (IsKept ports) rows
      → (r : CategoryRow) × (find (same_key id tenant) rows ≡ some r)
        × (c.name ≡ r.name)
        × (c.id ≡ id)
        × (c.tenant_id ≡ tenant)
        × IsKept ports r
  unfolding find_by_id or_not_found to_domain create_uuid
  found_row id tenant rows found c e ec h = elim (Option-cases (find (same_key id tenant) rows)) [
    | inl gone ↦ absurd (ground arith)
    | inr (r, there) ↦
        let (kept, key) = find-All (IsKept ports) (same_key id tenant) rows r there h in
        (
          r,
          there,
          ground arith,
          ground (arith, eq_iff r.id id),
          ground (arith, eq_iff r.tenant_id tenant),
          kept,
        )
  ]
