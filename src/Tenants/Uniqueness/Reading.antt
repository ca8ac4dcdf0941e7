-- ===== src/Tenants/Uniqueness/Reading.antt =====
-- What the requests on tenants read from the table, and the values that an update leaves.
use komi_saas_api.Base.{
  String, Option, none, some, Bool, false, List, find, str_eq, ◌≡◌, arith, All, All-map,
  Option-cases, inl, inr, eq_iff, subst, or_else,
}
use komi_saas_api.Base.Apart.{find-All}
use komi_saas_api.Base.Throws.{Result, ok, bind-ok, then-ok, throw_if}
use komi_saas_api.Shared.Value.{create_uuid}
use komi_saas_api.Tenants.Tenant.{
  TenantError, invalid_uuid, Tenant, create_name, create_description, create_slug, create_nit,
}
use komi_saas_api.Tenants.Table.{
  TenantRow, Ports, same_key, to_aggregate, optional_aggregate, search_aggregate_by_id,
}
use komi_saas_api.Tenants.Requests.{or_not_found, if_free, the_tenant}
use komi_saas_api.Tenants.Uniqueness.{IsKept, Free}

-- The value that is left, the one given or the one that was there, is valid and free.
pub chosen :
    (attr : TenantRow → String) (create : String → Result TenantError String)
    (exists : String → List TenantRow → Bool) (taken : String → TenantError)
    (again : (raw value : String) → create raw ≡ ok value → create value ≡ ok value)
    (searched : (value : String) (rows : List TenantRow)
      → exists value rows ≡ false
      → All (λ (r : TenantRow). str_eq (attr r) value ≡ false) rows)
    (id current : String) (given : Option String) (rows : List TenantRow) (left : Option String)
    → if_free create exists taken given rows ≡ ok left
    → create current ≡ ok current
    → All (Free attr id current) rows
    → (create (or_else left current) ≡ ok (or_else left current))
      × All (Free attr id (or_else left current)) rows
unfolding if_free
chosen attr create exists taken again searched id current none rows left e kept free =
    let same : none ≡ left = ground arith in
    subst
      (λ (v : Option String).
        (create (or_else v current) ≡ ok (or_else v current))
        × All (Free attr id (or_else v current)) rows)
      same (kept, free)
chosen attr create exists taken again searched id current (some raw) rows left e kept free =
    let (value, ev, e1) = bind-ok {r = create raw} e in
    let (unheard, e2) = then-ok {check = throw_if (exists value rows) (taken raw)} e1 in
    let same : some value ≡ left = ground arith in
    subst
      (λ (v : Option String).
        (create (or_else v current) ≡ ok (or_else v current))
        × All (Free attr id (or_else v current)) rows)
      same
      (
        again raw value ev,
        All-map (λ (r : TenantRow). str_eq (attr r) value ≡ false) (Free attr id value) (λ r f _. f)
            rows (searched value rows (ground arith)),
      )

module _ (ports : Ports) where
  to_aggregate-keeps :
      (r : TenantRow) (t : Tenant)
      → to_aggregate ports r ≡ ok t
      → IsKept r
      → (t.id ≡ r.id) × (t.slug ≡ r.slug) × (t.nit ≡ r.nit)
  unfolding to_aggregate
  to_aggregate-keeps r t e kept =
      let (id, ei, e1) = bind-ok {r = create_uuid ports.valid_uuid invalid_uuid r.id} e in
      let same : id ≡ r.id = unfold create_uuid in ground arith in
      let (name, _, e2) = bind-ok {r = create_name r.name} e1 in
      let (description, _, e3) = bind-ok {r = create_description r.description} e2 in
      let (slug, es, e4) = bind-ok {r = create_slug r.slug} e3 in
      let (nit, en, e5) = bind-ok {r = create_nit r.nit} e4 in
      let slug_same : slug ≡ r.slug = ground (arith, kept.0) in
      let nit_same : nit ≡ r.nit = ground (arith, kept.1) in
      (ground arith, ground arith, ground arith)

  optional_found :
      (value : String) (rows : List TenantRow) (found : Option Tenant) (r : TenantRow)
      → find (same_key value) rows ≡ some r
      → search_aggregate_by_id ports value rows ≡ ok found
      → optional_aggregate ports (some r) ≡ ok found
  unfolding search_aggregate_by_id
  optional_found value rows found r there e = rw there at e

  -- A row that was read, by the id that was read from the text.
  read_row :
      (id value : String) (rows : List TenantRow) (found : Option Tenant) (t : Tenant)
      → value ≡ id
      → search_aggregate_by_id ports value rows ≡ ok found
      → or_not_found id found ≡ ok t
      → All IsKept rows
      → (r : TenantRow) × (find (same_key id) rows ≡ some r)
        × (t.id ≡ id)
        × (t.slug ≡ r.slug)
        × (t.nit ≡ r.nit)
        × IsKept r
  unfolding search_aggregate_by_id or_not_found
  read_row id value rows found t same ef et h = elim (Option-cases (find (same_key value) rows)) [
    | inl gone ↦ absurd (ground arith)
    | inr (r, there) ↦
        let (kept, key) = find-All IsKept (same_key value) rows r there h in
        let (m, em, e1) =
          bind-ok {r = to_aggregate ports r} (optional_found value rows found r there ef) in
        let read : to_aggregate ports r ≡ ok t = ground arith in
        let (keyed, slug, nit) = to_aggregate-keeps r t read kept in
        (
          r,
          subst (λ v. find (same_key v) rows ≡ some r) same there,
          ground (arith, eq_iff r.id value),
          slug,
          nit,
          kept,
        )
  ]

  -- What a tenant read from the table has of its row.
  pub found_row :
      (id : String) (rows : List TenantRow) (t : Tenant)
      → the_tenant ports id rows ≡ ok t
      → All IsKept rows
      → (r : TenantRow) × (find (same_key id) rows ≡ some r)
        × (t.id ≡ id)
        × (t.slug ≡ r.slug)
        × (t.nit ≡ r.nit)
        × IsKept r
  unfolding the_tenant search_aggregate_by_id
  found_row id rows t e h =
      let (value, ev, e1) = bind-ok {r = create_uuid ports.valid_uuid invalid_uuid id} e in
      let same : value ≡ id = unfold create_uuid in ground arith in
      let (found, ef, e2) = bind-ok {r = search_aggregate_by_id ports value rows} e1 in
      read_row id value rows found t same ef e2 h
