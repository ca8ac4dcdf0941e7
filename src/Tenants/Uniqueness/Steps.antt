-- ===== src/Tenants/Uniqueness/Steps.antt =====
-- The requests on tenants, one after another, and what each leaves in the table.
use komi_saas_api.Base.{
  ℕ, String, Option, none, some, false, List, [], ◌∷◌, is_some, find, any, str_eq, ◌≡◌, refl, arith,
  All, Option-cases, inl, inr, or_else, ◌∙◌, ap, if◌then◌else◌,
}
use komi_saas_api.Base.Apart.{any-none}
use komi_saas_api.Base.Throws.{ok, bind-ok, then-ok, throw_if}
use komi_saas_api.Tenants.Tenant as Tenant_ops
use komi_saas_api.Tenants.Tenant.{
  TenantError, nit_exists, name_exists, slug_exists, Tenant, TenantData, Changes, create_name,
  create_description, create_slug, create_nit,
}
use komi_saas_api.Tenants.Table as Table
use komi_saas_api.Tenants.Table.{
  TenantRow, Ports, same_key, to_aggregate, optional_aggregate, search_aggregate_by_nit,
  exists_by_name, exists_by_slug, exists_by_nit,
}
use komi_saas_api.Tenants.Requests.{
  if_free, if_given, the_tenant, create_tenant, update_tenant, toggle_tenant_status, delete_tenant,
}
use komi_saas_api.Tenants.Uniqueness.{
  create_slug-again, create_nit-again, IsTidy, Free, slug_of, nit_of, found_slug-Free,
  found_nit-Free, update-IsTidy, save-IsTidy,
}
use komi_saas_api.Tenants.Uniqueness.Reading.{chosen, found_row}

-- One request that is answered well. A tenant that is created draws an id that no row has.
pub data Step (ports : Ports) : List TenantRow → List TenantRow → Type 0 where
  created :
      {rows rows' : List TenantRow} (params : TenantData) (id : String) (now : ℕ)
      → any (λ r. str_eq r.id id) rows ≡ false
      → create_tenant ports params id now rows ≡ ok rows'
      → Step ports rows rows'
  updated :
      {rows rows' : List TenantRow} (id : String) (params : Changes) (now : ℕ)
      → update_tenant ports id params now rows ≡ ok rows'
      → Step ports rows rows'
  toggled :
      {rows rows' : List TenantRow} (id : String)
      → toggle_tenant_status ports id rows ≡ ok rows'
      → Step ports rows rows'
  deleted :
      {rows rows' : List TenantRow} (id : String) (now : ℕ)
      → delete_tenant ports id now rows ≡ ok rows'
      → Step ports rows rows'

pub data Steps (ports : Ports) : List TenantRow → List TenantRow → Type 0 where
  start : {rows : List TenantRow} → Steps ports rows rows
  then_step :
      {rows rows' rows'' : List TenantRow}
      → Step ports rows rows'
      → Steps ports rows' rows''
      → Steps ports rows rows''

slugs_searched :
    (slug : String) (rows : List TenantRow)
    → exists_by_slug slug rows ≡ false
    → All (λ (r : TenantRow). str_eq (slug_of r) slug ≡ false) rows
unfolding exists_by_slug
slugs_searched slug rows e = any-none (λ r. str_eq r.slug slug) rows e

nits_searched :
    (nit : String) (rows : List TenantRow)
    → exists_by_nit nit rows ≡ false
    → All (λ (r : TenantRow). str_eq (nit_of r) nit ≡ false) rows
unfolding exists_by_nit
nits_searched nit rows e = any-none (λ r. str_eq r.nit nit) rows e

none_found :
    (nit : String) (rows : List TenantRow)
    → find (λ r. str_eq r.nit nit) rows ≡ none
    → any (λ r. str_eq r.nit nit) rows ≡ false
none_found nit [] e = refl
none_found nit (r ∷ rows) e = ground (arith, none_found nit rows)

update_values :
    (p : Changes) (now : ℕ) (t : Tenant) (id slug nit : String)
    → (t.id ≡ id) × (t.slug ≡ slug) × (t.nit ≡ nit)
    → ((Tenant_ops.update p now t).id ≡ id)
      × ((Tenant_ops.update p now t).slug ≡ or_else p.slug slug)
      × ((Tenant_ops.update p now t).nit ≡ or_else p.nit nit)
unfolding Tenant_ops.update
update_values p now t id slug nit (ei, es, en) = (ei, ap (or_else p.slug) es, ap (or_else p.nit) en)

toggled_keeps :
    (t t' : Tenant)
    → (if t.is_active then Tenant_ops.desactivate t else Tenant_ops.activate t) ≡ ok t'
    → (t'.id ≡ t.id) × (t'.slug ≡ t.slug) × (t'.nit ≡ t.nit)
unfolding Tenant_ops.desactivate Tenant_ops.activate
toggled_keeps t t' e = ground arith

pub deleted_keeps :
    (now : ℕ) (t t' : Tenant)
    → Tenant_ops.delete now t ≡ ok t'
    → (t'.id ≡ t.id) × (t'.slug ≡ t.slug) × (t'.nit ≡ t.nit)
unfolding Tenant_ops.delete
deleted_keeps now t t' e = ground arith

module _ (ports : Ports) where
  -- No tenant, deleted or not, has a NIT by which none is found.
  pub nit_unheard :
      (nit : String) (rows : List TenantRow) (found : Option Tenant)
      → search_aggregate_by_nit ports nit rows ≡ ok found
      → is_some found ≡ false
      → any (λ r. str_eq r.nit nit) rows ≡ false
  unfolding search_aggregate_by_nit
  nit_unheard nit rows found e gone = elim (Option-cases (find (λ r. str_eq r.nit nit) rows)) [
    | inl nobody ↦ none_found nit rows nobody
    | inr (r, there) ↦
        let read : optional_aggregate ports (some r) ≡ ok found = rw there at e in
        let (t, et, e1) = bind-ok {r = to_aggregate ports r} read in absurd (ground arith)
  ]

  created-IsTidy :
      (params : TenantData) (id : String) (now : ℕ) (rows rows' : List TenantRow)
      → any (λ r. str_eq r.id id) rows ≡ false
      → create_tenant ports params id now rows ≡ ok rows'
      → IsTidy rows
      → IsTidy rows'
  unfolding create_tenant exists_by_slug
  created-IsTidy params id now rows rows' new e h =
      let (name, _, e1) = bind-ok {r = create_name params.name} e in
      let (slug, es, e2) = bind-ok {r = create_slug params.slug} e1 in
      let (nit, en, e3) = bind-ok {r = create_nit params.nit} e2 in
      let (found, ef, e4) = bind-ok {r = search_aggregate_by_nit ports nit rows} e3 in
      let (gone, e5) = then-ok {check = throw_if (is_some found) (nit_exists nit)} e4 in
      let (_, e6) =
        then-ok {check = throw_if (exists_by_name ports name rows) (name_exists name)} e5 in
      let (fresh, e7) =
        then-ok {check = throw_if (exists_by_slug slug rows) (slug_exists slug)} e6 in
      let (description, _, e8) = bind-ok {r = create_description params.description} e7 in
      let values : TenantData = record {
        name = name;
        description = description;
        slug = slug;
        nit = nit;
      } in
      save-IsTidy ports (Tenant_ops.create values id now) rows rows' e8
        (unfold Tenant_ops.create in new) (unfold Tenant_ops.create in ground arith)
        (unfold Tenant_ops.create in nit_unheard nit rows found ef (ground arith))
        (unfold Tenant_ops.create in
          (create_slug-again params.slug slug es, create_nit-again params.nit nit en))
        h

  -- A tenant with a valid slug and NIT that are free.
  values-IsTidy :
      (t : Tenant) (id slug nit : String) (rows rows' : List TenantRow)
      → (t.id ≡ id) × (t.slug ≡ slug) × (t.nit ≡ nit)
      → Table.update ports t rows ≡ ok rows'
      → (create_slug slug ≡ ok slug) × (create_nit nit ≡ ok nit)
      → All (Free slug_of id slug) rows
      → All (Free nit_of id nit) rows
      → IsTidy rows
      → IsTidy rows'
  values-IsTidy t id slug nit rows rows' (ei, es, en) e kept slugs nits h =
      update-IsTidy ports t rows rows' e (rw (es, en) kept) (rw (ei, es) slugs) (rw (ei, en) nits) h

  updated-IsTidy :
      (id : String) (params : Changes) (now : ℕ) (rows rows' : List TenantRow)
      → update_tenant ports id params now rows ≡ ok rows'
      → IsTidy rows
      → IsTidy rows'
  unfolding update_tenant
  updated-IsTidy id params now rows rows' e h =
      let (t, et, e1) = bind-ok {r = the_tenant ports id rows} e in
      let (name, _, e2) =
        bind-ok {r = if_free create_name (exists_by_name ports) name_exists params.name rows} e1 in
      let (slug, es, e3) =
        bind-ok {r = if_free create_slug exists_by_slug slug_exists params.slug rows} e2 in
      let (nit, en, e4) =
        bind-ok {r = if_free create_nit exists_by_nit nit_exists params.nit rows} e3 in
      let (description, _, e5) = bind-ok {r = if_given params.description} e4 in
      let changes : Changes = record {
        name = name;
        description = description;
        slug = slug;
        nit = nit;
      } in
      let (r, there, keyed, slugged, nitted, kept) = found_row ports id rows t et h.0 in
      let (slug_valid, slug_free) =
        chosen slug_of create_slug exists_by_slug slug_exists create_slug-again slugs_searched id
          r.slug params.slug rows slug es kept.0 (found_slug-Free id r rows there h.1) in
      let (nit_valid, nit_free) =
        chosen nit_of create_nit exists_by_nit nit_exists create_nit-again nits_searched id r.nit
          params.nit rows nit en kept.1 (found_nit-Free id r rows there h.1) in
      values-IsTidy (Tenant_ops.update changes now t) id (or_else slug r.slug) (or_else nit r.nit)
        rows rows' (update_values changes now t id r.slug r.nit (keyed, slugged, nitted)) e5
        (slug_valid, nit_valid) slug_free nit_free h

  -- A tenant that keeps its id, its slug and its NIT.
  same_values-IsTidy :
      (id : String) (t t' : Tenant) (rows rows' : List TenantRow)
      → the_tenant ports id rows ≡ ok t
      → (t'.id ≡ t.id) × (t'.slug ≡ t.slug) × (t'.nit ≡ t.nit)
      → Table.update ports t' rows ≡ ok rows'
      → IsTidy rows
      → IsTidy rows'
  same_values-IsTidy id t t' rows rows' et (ei, es, en) e h =
      let (r, there, keyed, slugged, nitted, kept) = found_row ports id rows t et h.0 in
      values-IsTidy t' id r.slug r.nit rows rows' (ei ∙ keyed, es ∙ slugged, en ∙ nitted) e kept
        (found_slug-Free id r rows there h.1) (found_nit-Free id r rows there h.1) h

  step-IsTidy : {rows rows' : List TenantRow} → Step ports rows rows' → IsTidy rows → IsTidy rows'
  unfolding toggle_tenant_status delete_tenant
  step-IsTidy {rows} {rows'} (created params id now new e) h =
      created-IsTidy params id now rows rows' new e h
  step-IsTidy {rows} {rows'} (updated id params now e) h =
      updated-IsTidy id params now rows rows' e h
  step-IsTidy {rows} {rows'} (toggled id e) h =
      let (t, et, e1) = bind-ok {r = the_tenant ports id rows} e in
      let (t', es, e2) =
        bind-ok {r = if t.is_active then Tenant_ops.desactivate t else Tenant_ops.activate t} e1 in
      same_values-IsTidy id t t' rows rows' et (toggled_keeps t t' es) e2 h
  step-IsTidy {rows} {rows'} (deleted id now e) h =
      let (t, et, e1) = bind-ok {r = the_tenant ports id rows} e in
      let (t', es, e2) = bind-ok {r = Tenant_ops.delete now t} e1 in
      same_values-IsTidy id t t' rows rows' et (deleted_keeps now t t' es) e2 h

  -- Through any sequence of creations, updates, changes of status and deletions of tenants that
  -- succeed, where each creation draws an id that no row has, a table keeps that no two tenants,
  -- deleted or not, have one id, one slug or one NIT, and that each slug and NIT is as its value
  -- object leaves it.
  pub tenants_stay_apart :
      {rows rows' : List TenantRow} → Steps ports rows rows' → IsTidy rows → IsTidy rows'
  tenants_stay_apart start h = h
  tenants_stay_apart (then_step s rest) h = tenants_stay_apart rest (step-IsTidy s h)
