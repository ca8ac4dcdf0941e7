-- ===== src/Tenants/Requests.antt =====
-- The requests on tenants: the use cases of src/context/tenants/application/use-case (create-tenant,
-- update-tenant, toggle-tenant-status and delete-tenant). A request is a function of the rows, to the rows
-- after it. No use case publishes the event that a new tenant registers.
use komi_saas_api.Base.{ℕ, String, Option, none, some, Bool, List, is_some, if◌then◌else◌}
use komi_saas_api.Base.Throws.{Result, ok, err, ◌>>=◌, ◌>>◌, throw_if}
use komi_saas_api.Shared.Value.{create_uuid}
use komi_saas_api.Tenants.Tenant as Tenant_ops
use komi_saas_api.Tenants.Tenant.{
  TenantError, invalid_uuid, nit_exists, name_exists, slug_exists, tenant_not_found, Tenant,
  TenantData, Changes, create_name, create_description, create_slug, create_nit,
}
use komi_saas_api.Tenants.Table as Table
use komi_saas_api.Tenants.Table.{
  TenantRow, Ports, search_aggregate_by_id, search_aggregate_by_nit, exists_by_name, exists_by_slug,
  exists_by_nit, save,
}

unfoldable pub or_not_found : String → Option Tenant → Result TenantError Tenant
or_not_found id none = err (tenant_not_found id)
or_not_found id (some t) = ok t

-- A value that is asked for, which no tenant may have.
unfoldable pub if_free :
    (String → Result TenantError String)
    → (String → List TenantRow → Bool)
    → (String → TenantError)
    → Option String
    → List TenantRow
    → Result TenantError (Option String)
if_free create exists taken none rows = ok none
if_free create exists taken (some raw) rows = do
  value ← create raw
  throw_if (exists value rows) (taken raw)
  ok (some value)

unfoldable pub if_given : Option String → Result TenantError (Option String)
if_given none = ok none
if_given (some text) = create_description text >>= λ value. ok (some value)

module _ (ports : Ports) where
  -- `CreateTenantUseCase.execute`
  unfoldable pub create_tenant :
      TenantData → String → ℕ → List TenantRow → Result TenantError (List TenantRow)
  create_tenant params id now rows = do
    name ← create_name params.name
    slug ← create_slug params.slug
    nit ← create_nit params.nit
    found ← search_aggregate_by_nit ports nit rows
    throw_if (is_some found) (nit_exists nit)
    throw_if (exists_by_name ports name rows) (name_exists name)
    throw_if (exists_by_slug slug rows) (slug_exists slug)
    description ← create_description params.description
    save ports
        (Tenant_ops.create
          (record { name = name; description = description; slug = slug; nit = nit }) id now)
        rows

  -- The tenant that is not deleted, which must be there.
  unfoldable pub the_tenant : String → List TenantRow → Result TenantError Tenant
  unfolding create_uuid or_not_found
  the_tenant id rows = do
    value ← create_uuid ports.valid_uuid invalid_uuid id
    found ← search_aggregate_by_id ports value rows
    or_not_found id found

  -- `UpdateTenantUseCase.execute`
  unfoldable pub update_tenant :
      String → Changes → ℕ → List TenantRow → Result TenantError (List TenantRow)
  unfolding the_tenant if_free if_given
  update_tenant id params now rows = do
    t ← the_tenant id rows
    name ← if_free create_name (exists_by_name ports) name_exists params.name rows
    slug ← if_free create_slug exists_by_slug slug_exists params.slug rows
    nit ← if_free create_nit exists_by_nit nit_exists params.nit rows
    description ← if_given params.description
    Table.update ports
        (Tenant_ops.update
          (record { name = name; description = description; slug = slug; nit = nit }) now t)
        rows

  -- `ToggleTenantStatusUseCase.execute`
  unfoldable pub toggle_tenant_status :
      String → List TenantRow → Result TenantError (List TenantRow)
  unfolding the_tenant
  toggle_tenant_status id rows = do
    t ← the_tenant id rows
    t' ← if t.is_active then Tenant_ops.desactivate t else Tenant_ops.activate t
    Table.update ports t' rows

  -- `DeleteTenantUseCases.execute`
  unfoldable pub delete_tenant : String → ℕ → List TenantRow → Result TenantError (List TenantRow)
  unfolding the_tenant
  delete_tenant id now rows = do
    t ← the_tenant id rows
    t' ← Tenant_ops.delete now t
    Table.update ports t' rows
