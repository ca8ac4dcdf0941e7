-- ===== src/Tenants/Dates.antt =====
-- What the requests on tenants leave as it was: the moments of a change, and the NIT of a tenant that is
-- deleted.
use komi_saas_api.Base.{
  ℕ, String, true, false, not, List, [], ◌∷◌, map, any, is_some, str_eq, ◌≡◌, ◌≢◌, refl, arith,
  some, Bool, false, find, All, eq_refl, ◌∙◌, sym, subst, ap, if◌then◌else◌,
}
use komi_saas_api.Base.Throws.{ok, bind-ok, then-ok, throw_if}
use komi_saas_api.Tenants.Tenant as Tenant_ops
use komi_saas_api.Tenants.Tenant.{
  TenantError, nit_exists, name_exists, not_stored, Tenant, TenantData, Changes, create_name,
  create_slug, create_nit,
}
use komi_saas_api.Tenants.Table as Table
use komi_saas_api.Tenants.Table.{
  TenantRow, Ports, same_key, to_primitives, written, search_aggregate_by_nit, exists_by_name,
  exists_by_slug, exists_by_nit,
}
use komi_saas_api.Tenants.Requests.{
  if_free, if_given, the_tenant, create_tenant, update_tenant, toggle_tenant_status, delete_tenant,
}
use komi_saas_api.Tenants.Uniqueness.Steps.{nit_unheard, deleted_keeps}
use komi_saas_api.Tenants.Uniqueness.{IsKept, nit_of}
use komi_saas_api.Tenants.Uniqueness.Reading.{found_row}

abbrev pub moment_of : TenantRow → ℕ
moment_of row = row.updated_at

written_moments :
    (t : Tenant) (rows : List TenantRow) → map moment_of (map (written t) rows) ≡ map moment_of rows
written_moments t [] = refl
written_moments t (r ∷ rows) = ground (arith, written_moments t rows)

not_both : (b : Bool) → b ≡ true → b ≡ false → ⊥
not_both b t f = ground arith

written_nit :
    (t : Tenant) (rows : List TenantRow) (r : TenantRow)
    → find (same_key t.id) rows ≡ some r
    → any (λ row. str_eq row.nit t.nit) (map (written t) rows) ≡ true
written_nit t [] r e = absurd (ground arith)
written_nit t (row ∷ rows) r e = ground (arith, eq_refl t.nit, written_nit t rows r)

-- A change of a tenant that is answered well.
pub data Edit (ports : Ports) (rows rows' : List TenantRow) : Type 0 where
  updated :
      (id : String) (params : Changes) (now : ℕ)
      → update_tenant ports id params now rows ≡ ok rows'
      → Edit ports rows rows'
  toggled : (id : String) → toggle_tenant_status ports id rows ≡ ok rows' → Edit ports rows rows'
  deleted :
      (id : String) (now : ℕ) → delete_tenant ports id now rows ≡ ok rows' → Edit ports rows rows'

module _ (ports : Ports) where
  update_moments :
      (t : Tenant) (rows rows' : List TenantRow)
      → Table.update ports t rows ≡ ok rows'
      → map moment_of rows' ≡ map moment_of rows
  unfolding Table.update
  update_moments t rows rows' e =
      let (_, e1) =
        then-ok {check = throw_if (not (ports.accepts (to_primitives t) rows)) not_stored} e in
      let same : map (written t) rows ≡ rows' = ground arith in
      sym (ap (map moment_of) same) ∙ written_moments t rows

  updated_moments :
      (id : String) (params : Changes) (now : ℕ) (rows rows' : List TenantRow)
      → update_tenant ports id params now rows ≡ ok rows'
      → map moment_of rows' ≡ map moment_of rows
  unfolding update_tenant
  updated_moments id params now rows rows' e =
      let (t, _, e1) = bind-ok {r = the_tenant ports id rows} e in
      let (name, _, e2) =
        bind-ok {r = if_free create_name (exists_by_name ports) name_exists params.name rows} e1 in
      let (slug, _, e3) =
        bind-ok {r = if_free create_slug exists_by_slug Tenant_ops.slug_exists params.slug rows}
          e2 in
      let (nit, _, e4) =
        bind-ok {r = if_free create_nit exists_by_nit nit_exists params.nit rows} e3 in
      let (description, _, e5) = bind-ok {r = if_given params.description} e4 in
      update_moments
        (Tenant_ops.update
          (record { name = name; description = description; slug = slug; nit = nit }) now t)
        rows rows' e5

  deleted_moments :
      (id : String) (now : ℕ) (rows rows' : List TenantRow)
      → delete_tenant ports id now rows ≡ ok rows'
      → map moment_of rows' ≡ map moment_of rows
  unfolding delete_tenant
  deleted_moments id now rows rows' e =
      let (t, _, e1) = bind-ok {r = the_tenant ports id rows} e in
      let (t', _, e2) = bind-ok {r = Tenant_ops.delete now t} e1 in update_moments t' rows rows' e2

  toggled_moments :
      (id : String) (rows rows' : List TenantRow)
      → toggle_tenant_status ports id rows ≡ ok rows'
      → map moment_of rows' ≡ map moment_of rows
  unfolding toggle_tenant_status
  toggled_moments id rows rows' e =
      let (t, _, e1) = bind-ok {r = the_tenant ports id rows} e in
      let (t', _, e2) =
        bind-ok {r = if t.is_active then Tenant_ops.desactivate t else Tenant_ops.activate t} e1 in
      update_moments t' rows rows' e2

  -- No update, change of status or deletion of a tenant that succeeds changes the moment of the
  -- last change in any row.
  pub edits_keep_moments :
      {rows rows' : List TenantRow}
      → Edit ports rows rows'
      → map moment_of rows' ≡ map moment_of rows
  edits_keep_moments {rows} {rows'} (updated id params now e) =
      updated_moments id params now rows rows' e
  edits_keep_moments {rows} {rows'} (toggled id e) = toggled_moments id rows rows' e
  edits_keep_moments {rows} {rows'} (deleted id now e) = deleted_moments id now rows rows' e

  -- A NIT that a tenant has, deleted or not, is not given to another.
  taken_refused :
      (params : TenantData) (nit id : String) (now : ℕ) (rows rows' : List TenantRow)
      → create_nit params.nit ≡ ok nit
      → any (λ r. str_eq r.nit nit) rows ≡ true
      → create_tenant ports params id now rows ≢ ok rows'
  unfolding create_tenant
  taken_refused params nit id now rows rows' en there e =
      let (name, _, e1) = bind-ok {r = create_name params.name} e in
      let (slug, _, e2) = bind-ok {r = create_slug params.slug} e1 in
      let (nit', en', e3) = bind-ok {r = create_nit params.nit} e2 in
      let (found, ef, e4) = bind-ok {r = search_aggregate_by_nit ports nit' rows} e3 in
      let (gone, _) = then-ok {check = throw_if (is_some found) (nit_exists nit')} e4 in
      let unheard : any (λ r. str_eq r.nit nit') rows ≡ false =
        nit_unheard ports nit' rows found ef (ground arith) in
      let same : nit ≡ nit' = ground arith in
      not_both (any (λ r. str_eq r.nit nit) rows) there (rw same unheard)

  deleted_nit :
      (id : String) (now : ℕ) (rows rows' : List TenantRow) (r : TenantRow)
      → All IsKept rows
      → find (same_key id) rows ≡ some r
      → delete_tenant ports id now rows ≡ ok rows'
      → any (λ row. str_eq row.nit r.nit) rows' ≡ true
  unfolding delete_tenant Table.update
  deleted_nit id now rows rows' r kept there e =
      let (t, et, e1) = bind-ok {r = the_tenant ports id rows} e in
      let (t', es, e2) = bind-ok {r = Tenant_ops.delete now t} e1 in
      let (_, e3) =
        then-ok {check = throw_if (not (ports.accepts (to_primitives t') rows)) not_stored} e2 in
      let same : map (written t') rows ≡ rows' = ground arith in
      let (r', there', keyed, _, nitted, _) = found_row ports id rows t et kept in
      let found_same : r' ≡ r = ground arith in
      let (at_id, _, at_nit) = deleted_keeps now t t' es in
      let nit : t'.nit ≡ r.nit = at_nit ∙ nitted ∙ ap nit_of found_same in
      let found : find (same_key t'.id) rows ≡ some r = rw (at_id ∙ keyed) there in
      subst (λ (n : String). any (λ row. str_eq row.nit n) rows' ≡ true) nit
        (subst (λ (left : List TenantRow). any (λ row. str_eq row.nit t'.nit) left ≡ true) same
          (written_nit t' rows r found))

  -- Where each slug and NIT in the table is as its value object leaves it, no tenant is created
  -- with the NIT of a tenant that was just deleted.
  pub deleted_nit_stays_taken :
      (id : String) (now : ℕ) (rows rows' rows'' : List TenantRow) (r : TenantRow)
      (params : TenantData) (id' : String) (now' : ℕ)
      → All IsKept rows
      → find (same_key id) rows ≡ some r
      → delete_tenant ports id now rows ≡ ok rows'
      → create_nit params.nit ≡ ok r.nit
      → create_tenant ports params id' now' rows' ≢ ok rows''
  deleted_nit_stays_taken id now rows rows' rows'' r params id' now' kept there e en =
      taken_refused params r.nit id' now' rows' rows'' en
        (deleted_nit id now rows rows' r kept there e)
