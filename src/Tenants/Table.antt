-- ===== src/Tenants/Table.antt =====
-- The table of the tenants (src/context/tenants/infrastructure/persistence): the rows, the mapper and the
-- repository. Whether the database takes a row is a parameter.
use komi_saas_api.Base.{
  ℕ, String, Option, none, some, Bool, not, ◌&&◌, List, [], ◌∷◌, map, find, any, filter, str_eq,
  if◌then◌else◌,
}
use komi_saas_api.Base.Throws.{Result, ok, ◌>>=◌, ◌>>◌, throw_if}
use komi_saas_api.Shared.Value.{create_uuid}
use komi_saas_api.Tenants.Tenant.{
  TenantError, invalid_uuid, not_stored, Tenant, create_name, create_description, create_slug,
  create_nit,
}

-- `TenantEntity`, and `TenantPrimitives`, which has the same fields.
pub record TenantRow : Type 0 where
  pub id : String
  pub name : String
  pub description : String
  pub slug : String
  pub nit : String
  pub is_active : Bool
  pub is_deleted : Bool
  pub created_at : ℕ
  pub updated_at : ℕ

-- `TenantResponse`
pub record TenantResponse : Type 0 where
  pub id : String
  pub name : String
  pub description : String
  pub slug : String
  pub nit : String
  pub created_at : ℕ
  pub updated_at : ℕ
  pub is_active : Bool

-- The test of the uuid package, the database's ILIKE (a text and a pattern), and whether the database takes
-- a row that is written to the rows there are.
pub record Ports : Type 0 where
  pub valid_uuid : String → Bool
  pub ilike : String → String → Bool
  pub accepts : TenantRow → List TenantRow → Bool

unfoldable pub to_primitives : Tenant → TenantRow
to_primitives t = record {
  id = t.id;
  name = t.name;
  description = t.description;
  slug = t.slug;
  nit = t.nit;
  is_active = t.is_active;
  is_deleted = t.is_deleted;
  created_at = t.created_at;
  updated_at = t.updated_at;
}

-- `TenantMapper.toResponse`
unfoldable pub to_response : TenantRow → TenantResponse
to_response row = record {
  id = row.id;
  name = row.name;
  description = row.description;
  slug = row.slug;
  nit = row.nit;
  created_at = row.created_at;
  updated_at = row.updated_at;
  is_active = row.is_active;
}

-- The tenant of an id that is not deleted.
abbrev pub same_key : String → TenantRow → Bool
same_key id row = str_eq row.id id && not row.is_deleted

-- `update` does not write the moment of the change.
abbrev pub written : Tenant → TenantRow → TenantRow
written t row =
    if same_key t.id row
    then record row {
      name = t.name;
      description = t.description;
      slug = t.slug;
      nit = t.nit;
      is_active = t.is_active;
      is_deleted = t.is_deleted;
    }
    else row

-- The row of a primary key is written over, or added.
unfoldable pub put_row : TenantRow → List TenantRow → List TenantRow
put_row row [] = row ∷ []
put_row row (r ∷ rows) = if str_eq r.id row.id then row ∷ rows else r ∷ put_row row rows

abbrev pub optional_response : Option TenantRow → Option TenantResponse
optional_response none = none
optional_response (some row) = some (to_response row)

unfoldable pub search_by_id : String → List TenantRow → Option TenantResponse
unfolding to_response
search_by_id id rows = optional_response (find (same_key id) rows)

unfoldable pub search_all : List TenantRow → List TenantResponse
unfolding to_response
search_all rows = map to_response (filter (λ row. not row.is_deleted) rows)

unfoldable pub exists_by_slug : String → List TenantRow → Bool
exists_by_slug slug rows = any (λ row. str_eq row.slug slug) rows

unfoldable pub exists_by_nit : String → List TenantRow → Bool
exists_by_nit nit rows = any (λ row. str_eq row.nit nit) rows

module _ (ports : Ports) where
  -- `TenantMapper.toAggregate`, and `fromPrimitives`.
  unfoldable pub to_aggregate : TenantRow → Result TenantError Tenant
  unfolding create_uuid create_name create_description create_slug create_nit
  to_aggregate row = do
    id ← create_uuid ports.valid_uuid invalid_uuid row.id
    name ← create_name row.name
    description ← create_description row.description
    slug ← create_slug row.slug
    nit ← create_nit row.nit
    ok (record {
      id = id;
      name = name;
      description = description;
      slug = slug;
      nit = nit;
      is_active = row.is_active;
      is_deleted = row.is_deleted;
      created_at = row.created_at;
      updated_at = row.updated_at;
      domain_events = [];
    })

  abbrev pub optional_aggregate : Option TenantRow → Result TenantError (Option Tenant)
  optional_aggregate none = ok none
  optional_aggregate (some row) = to_aggregate row >>= λ t. ok (some t)

  unfoldable pub search_aggregate_by_id :
      String → List TenantRow → Result TenantError (Option Tenant)
  unfolding to_aggregate
  search_aggregate_by_id id rows = optional_aggregate (find (same_key id) rows)

  -- Deleted tenants are looked at too, here and in the three tests of existence.
  unfoldable pub search_aggregate_by_nit :
      String → List TenantRow → Result TenantError (Option Tenant)
  unfolding to_aggregate
  search_aggregate_by_nit nit rows = optional_aggregate (find (λ row. str_eq row.nit nit) rows)

  -- The name is the pattern, and its wildcards are not escaped.
  unfoldable pub exists_by_name : String → List TenantRow → Bool
  exists_by_name name rows = any (λ row. ports.ilike row.name name) rows

  unfoldable pub save : Tenant → List TenantRow → Result TenantError (List TenantRow)
  unfolding to_primitives put_row
  save t rows = do
    throw_if (not (ports.accepts (to_primitives t) rows)) not_stored
    ok (put_row (to_primitives t) rows)

  unfoldable pub update : Tenant → List TenantRow → Result TenantError (List TenantRow)
  unfolding to_primitives
  update t rows = do
    throw_if (not (ports.accepts (to_primitives t) rows)) not_stored
    ok (map (written t) rows)
