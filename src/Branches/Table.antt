-- ===== src/Branches/Table.antt =====
-- The table of the branches (src/context/branch/infrastructure/persistence): the rows, the mapper, and the
-- repository. Whether the database takes a row is a parameter.
use komi_saas_api.Base.{
  ℕ, String, Option, none, some, Bool, not, ◌&&◌, List, [], ◌∷◌, map, find, any, str_eq,
  if◌then◌else◌,
}
use komi_saas_api.Base.Throws.{Result, ok, err, ◌>>=◌}
use komi_saas_api.Shared.Value.{create_uuid}
use komi_saas_api.Branches.Like.{escape_like}
use komi_saas_api.Branches.Branch.{
  BranchError, invalid_uuid, name_exists, not_stored, Branch, create_name, create_address,
  create_phone, create_city, create_department,
}

-- `BranchEntity`, and `BranchPrimitives`, which has the same fields.
pub record BranchRow : Type 0 where
  pub id : String
  pub tenant_id : String
  pub name : String
  pub address : String
  pub phone : String
  pub city : String
  pub department : String
  pub is_active : Bool
  pub is_deleted : Bool
  pub created_at : ℕ
  pub updated_at : ℕ

-- What the database answers to a write: done, a unique index is violated, or another error.
pub data Outcome : Type 0 where
  stored unique_violation failed : Outcome

-- The test of the uuid package, JavaScript's `toLowerCase`, the database's ILIKE, whether a tenant is found,
-- and the answers of the database to a row that is written to the rows there are.
pub record Ports : Type 0 where
  pub valid_uuid : String → Bool
  pub lower_case : String → String
  pub ilike : String → String → Bool
  pub tenant_found : String → Bool
  pub on_write : BranchRow → List BranchRow → Outcome

unfoldable pub to_primitives : Branch → BranchRow
to_primitives b = record {
  id = b.id;
  tenant_id = b.tenant_id;
  name = b.name;
  address = b.address;
  phone = b.phone;
  city = b.city;
  department = b.department;
  is_active = b.is_active;
  is_deleted = b.is_deleted;
  created_at = b.created_at;
  updated_at = b.updated_at;
}

-- The branch of the key that is not deleted.
abbrev pub same_key : String → String → BranchRow → Bool
same_key id tenant row = str_eq row.id id && str_eq row.tenant_id tenant && not row.is_deleted

abbrev pub written : Branch → BranchRow → BranchRow
written b row =
    if same_key b.id b.tenant_id row
    then record row {
      name = b.name;
      address = b.address;
      phone = b.phone;
      city = b.city;
      department = b.department;
      is_active = b.is_active;
      is_deleted = b.is_deleted;
      updated_at = b.updated_at;
    }
    else row

-- A unique index that is violated is told as a name that exists.
unfoldable pub settle : String → Outcome → List BranchRow → Result BranchError (List BranchRow)
settle name Outcome.stored rows = ok rows
settle name Outcome.unique_violation rows = err (name_exists name)
settle name Outcome.failed rows = err not_stored

-- The row of a primary key is written over, or added.
unfoldable pub put_row : BranchRow → List BranchRow → List BranchRow
put_row row [] = row ∷ []
put_row row (r ∷ rows) = if str_eq r.id row.id then row ∷ rows else r ∷ put_row row rows

module _ (ports : Ports) where
  -- `BranchMapper.toAggregate`, and `fromPrimitives`.
  unfoldable pub to_aggregate : BranchRow → Result BranchError Branch
  unfolding create_uuid create_name create_address create_phone create_city create_department
  to_aggregate row = do
    id ← create_uuid ports.valid_uuid invalid_uuid row.id
    name ← create_name row.name
    address ← create_address row.address
    phone ← create_phone row.phone
    city ← create_city row.city
    department ← create_department row.department
    ok (record {
      id = id;
      tenant_id = row.tenant_id;
      name = name;
      address = address;
      phone = phone;
      city = city;
      department = department;
      is_active = row.is_active;
      is_deleted = row.is_deleted;
      created_at = row.created_at;
      updated_at = row.updated_at;
    })

  abbrev pub optional_aggregate : Option BranchRow → Result BranchError (Option Branch)
  optional_aggregate none = ok none
  optional_aggregate (some row) = to_aggregate row >>= λ b. ok (some b)

  unfoldable pub search_aggregate_by_id :
      String → String → List BranchRow → Result BranchError (Option Branch)
  unfolding to_aggregate
  search_aggregate_by_id id tenant rows = optional_aggregate (find (same_key id tenant) rows)

  unfoldable pub exists_by_name : String → String → List BranchRow → Bool
  exists_by_name name tenant rows =
      any
        (λ row.
          ports.ilike row.name (escape_like name)
          && str_eq row.tenant_id tenant
          && not row.is_deleted)
        rows

  unfoldable pub save : Branch → List BranchRow → Result BranchError (List BranchRow)
  unfolding to_primitives settle put_row
  save b rows =
      settle b.name (ports.on_write (to_primitives b) rows) (put_row (to_primitives b) rows)

  unfoldable pub update : Branch → List BranchRow → Result BranchError (List BranchRow)
  unfolding to_primitives settle
  update b rows = settle b.name (ports.on_write (to_primitives b) rows) (map (written b) rows)

-- `existsInTenant`: a branch that is open.
unfoldable pub exists_in_tenant : String → String → List BranchRow → Bool
exists_in_tenant id tenant rows =
    any
      (λ row.
        str_eq row.id id && str_eq row.tenant_id tenant && row.is_active && not row.is_deleted)
      rows
