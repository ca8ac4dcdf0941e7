-- ===== src/Branches/Requests.antt =====
-- The requests on branches: the use cases of src/context/branch/application/use-cases (create-branch,
-- update-branch and delete-branch) and the adapter of their port. A request is a function of the rows, to
-- the rows after it.
use komi_saas_api.Base.{ℕ, String, Option, none, some, not, ◌&&◌, List}
use komi_saas_api.Base.Throws.{Result, ok, err, ◌>>=◌, ◌>>◌, throw_if}
use komi_saas_api.Shared.Value.{create_uuid}
use komi_saas_api.Branches.Branch as Branch_ops
use komi_saas_api.Branches.Branch.{
  BranchError, invalid_uuid, branch_not_found, tenant_not_found, name_exists, Branch, BranchData,
  Changes, create_name, create_address, create_phone, create_city, create_department, has_name,
}
use komi_saas_api.Branches.Table as Table
use komi_saas_api.Branches.Table.{BranchRow, Ports, search_aggregate_by_id, exists_by_name, save}

unfoldable pub or_not_found : String → Option Branch → Result BranchError Branch
or_not_found id none = err (branch_not_found id)
or_not_found id (some b) = ok b

-- `value !== undefined ? { key: create(value) } : {}`
unfoldable pub if_given :
    (String → Result BranchError String) → Option String → Result BranchError (Option String)
if_given create none = ok none
if_given create (some text) = create text >>= λ value. ok (some value)

-- The values of the changes, but for the name, in the order in which they are read.
unfoldable pub read_changes : Option String → Changes → Result BranchError Changes
unfolding if_given create_address create_phone create_city create_department
read_changes name params = do
  address ← if_given create_address params.address
  phone ← if_given create_phone params.phone
  city ← if_given create_city params.city
  department ← if_given create_department params.department
  ok (record {
    name = name;
    address = address;
    phone = phone;
    city = city;
    department = department;
    is_active = params.is_active;
  })

module _ (ports : Ports) where
  -- `TenantCheckerAdapter.exists`, and the throw where it is false.
  unfoldable pub ensure_tenant : String → Result BranchError (Unit {0})
  unfolding create_uuid
  ensure_tenant tenant = do
    id ← create_uuid ports.valid_uuid invalid_uuid tenant
    throw_if (not (ports.tenant_found id)) (tenant_not_found tenant)

  -- `CreateBranchUseCase.execute`
  unfoldable pub create_branch :
      String → BranchData → String → ℕ → List BranchRow → Result BranchError (List BranchRow)
  unfolding ensure_tenant
  create_branch tenant params id now rows = do
    ensure_tenant tenant
    name ← create_name params.name
    throw_if (exists_by_name ports name tenant rows) (name_exists name)
    address ← create_address params.address
    phone ← create_phone params.phone
    city ← create_city params.city
    department ← create_department params.department
    save ports
        (Branch_ops.create tenant
          (record {
            name = name;
            address = address;
            phone = phone;
            city = city;
            department = department;
          })
          id now)
        rows

  -- The branch of the tenant, which must be there.
  unfoldable pub the_branch : String → String → List BranchRow → Result BranchError Branch
  unfolding create_uuid or_not_found
  the_branch id tenant rows = do
    value ← create_uuid ports.valid_uuid invalid_uuid id
    found ← search_aggregate_by_id ports value tenant rows
    or_not_found id found

  -- The name that is asked for. Where only the case of letters changes, the table is not asked.
  unfoldable pub changed_name :
      String → Option String → Branch → List BranchRow → Result BranchError (Option String)
  changed_name tenant none b rows = ok none
  changed_name tenant (some raw) b rows = do
    name ← create_name raw
    throw_if (not (has_name ports.lower_case name b) && exists_by_name ports name tenant rows)
        (name_exists raw)
    ok (some name)

  -- `UpdateBranchUseCase.execute`
  unfoldable pub update_branch :
      String → String → Changes → ℕ → List BranchRow → Result BranchError (List BranchRow)
  unfolding the_branch changed_name read_changes
  update_branch id tenant params now rows = do
    b ← the_branch id tenant rows
    name ← changed_name tenant params.name b rows
    changes ← read_changes name params
    b' ← Branch_ops.update changes now b
    Table.update ports b' rows

  -- `DeleteBranchUseCase.execute`
  unfoldable pub delete_branch :
      String → String → ℕ → List BranchRow → Result BranchError (List BranchRow)
  unfolding the_branch
  delete_branch id tenant now rows = do
    b ← the_branch id tenant rows
    Table.update ports (Branch_ops.delete now b) rows
