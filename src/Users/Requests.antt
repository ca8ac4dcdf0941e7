-- ===== src/Users/Requests.antt =====
-- The requests on users: the use cases of src/context/user/application/use-case (here create-user,
-- reassign-user and toggle-user-status) and the adapters of their ports
-- (infrastructure/persistence/adapters). A request is a function of the rows, to the rows after it.
use komi_saas_api.Base.{
  ℕ, String, Option, none, some, Bool, false, not, List, is_empty, if◌then◌else◌,
}
use komi_saas_api.Base.Throws.{Result, ok, err, ◌>>=◌, ◌>>◌, throw_if}
use komi_saas_api.Users.Failure.{
  UserError, Platform, user_not_found, tenant_not_found, branch_not_found, rol_not_found,
  user_name_exists, email_exists, not_stored,
}
use komi_saas_api.Users.Values.{
  RolScope, create_id, create_user_name, create_email, create_phone, create_plain_password,
  create_scope, create_sex, birth_date_of, from_hash,
}
use komi_saas_api.Users.User as User_ops
use komi_saas_api.Users.User.{User, UserCreated, UserData, UpdateParams}
use komi_saas_api.Users.Table as Table
use komi_saas_api.Users.Table.{
  UserRow, create_given, search_aggregate_by_id, exists_by_email, exists_by_user_name, save,
}

-- The other contexts: whether a tenant is there and active, whether a branch is the tenant's, a role's
-- name and the text of its scope, the hashing of passwords, and whether the database takes a new row.
pub record Ports : Type 0 where
  pub find_tenant : String → Option Bool
  pub branch_in_tenant : String → String → Bool
  pub find_rol : String → Option (String × String)
  pub verify : String → String → Bool
  pub hash : String → String
  pub accepts : User → Bool

pub record CreateUserParams : Type 0 where
  pub tenant_id : String
  pub branch_id : Option String
  pub rol_id : String
  pub user_name : String
  pub email : Option String
  pub password : String
  pub first_name : String
  pub second_name : Option String
  pub first_last_name : String
  pub second_last_name : Option String
  pub age : ℕ
  pub sex : String
  pub phone : String

unfoldable pub or_throw : {A : Type 0} → UserError → Option A → Result UserError A
or_throw e none = err e
or_throw e (some a) = ok a

abbrev pub is_active_tenant : Option Bool → Bool
is_active_tenant none = false
is_active_tenant (some active) = active

-- `value !== undefined ? create(value) : undefined`
unfoldable pub if_given :
    {A B : Type 0} → (A → Result UserError B) → Option A → Result UserError (Option B)
if_given create none = ok none
if_given create (some a) = create a >>= λ b. ok (some b)

module _ (platform : Platform) where
  -- The user of the tenant, which must be there.
  unfoldable pub the_user : String → String → ℕ → List UserRow → Result UserError User
  the_user tenant id now rows = do
    tenant_id ← create_id platform tenant
    user_id ← create_id platform id
    found ← search_aggregate_by_id platform tenant_id user_id now rows
    or_throw (user_not_found id) found

module _ (platform : Platform) (ports : Ports) where
  -- `TenantCheckerAdapter.exists`
  unfoldable pub tenant_exists : String → Result UserError Bool
  tenant_exists id =
      create_id platform id >>= λ value. ok (is_active_tenant (ports.find_tenant value))

  -- `BranchCheckerAdapter.existsInTenant`
  unfoldable pub branch_exists : String → String → Result UserError Bool
  branch_exists branch tenant =
      create_id platform branch >>= λ value. ok (ports.branch_in_tenant value tenant)

  abbrev pub rol_result : Option (String × String) → Result UserError (Option (String × RolScope))
  rol_result none = ok none
  rol_result (some (name, scope_text)) =
      create_scope platform scope_text >>= λ scope. ok (some (name, scope))

  -- `RolFinderAdapter.findById`
  unfoldable pub find_rol : String → Result UserError (Option (String × RolScope))
  find_rol id = create_id platform id >>= λ value. rol_result (ports.find_rol value)

  unfoldable pub ensure_branch : Option String → String → Result UserError (Unit {0})
  ensure_branch none tenant = ok tt
  ensure_branch (some branch) tenant =
      branch_exists branch tenant >>= λ exists. throw_if (not exists) (branch_not_found branch)

  abbrev pub truthy : Option String → Option String
  truthy none = none
  truthy (some text) = if is_empty text then none else some text

  unfoldable pub ensure_new_email :
      String → Option String → List UserRow → Result UserError (Unit {0})
  ensure_new_email tenant none rows = ok tt
  ensure_new_email tenant (some email) rows =
      throw_if (exists_by_email platform tenant email none rows) (email_exists email)

  -- The first half of `CreateUserUseCase.execute`: the tenant, the branch and the role are looked up.
  unfoldable pub check_place : CreateUserParams → Result UserError (String × RolScope)
  unfolding tenant_exists ensure_branch find_rol or_throw
  check_place params = do
    exists ← tenant_exists params.tenant_id
    throw_if (not exists) (tenant_not_found params.tenant_id)
    ensure_branch (truthy params.branch_id) params.tenant_id
    found ← find_rol params.rol_id
    or_throw (rol_not_found params.rol_id) found

  -- Then the email, the name and the password; the password is kept as its hash.
  unfoldable pub check_credentials :
      CreateUserParams → List UserRow → Result UserError (Option String × String × String)
  unfolding create_given ensure_new_email
  check_credentials params rows = do
    tenant_id ← create_id platform params.tenant_id
    email ← create_given (create_email platform) params.email
    ensure_new_email tenant_id email rows
    user_name ← create_user_name params.user_name
    throw_if (exists_by_user_name platform tenant_id user_name none rows)
        (user_name_exists params.user_name)
    plain ← create_plain_password params.password
    password ← from_hash (ports.hash plain)
    ok (email, user_name, password)

  -- The values that `UserAggregate.create` is given.
  unfoldable pub read_data :
      CreateUserParams
      → ℕ
      → String × RolScope
      → Option String × String × String
      → Result UserError UserData
  unfolding create_given
  read_data params now (rol_name, rol_scope) (email, user_name, password) = do
    tenant_id ← create_id platform params.tenant_id
    branch_id ← create_given (create_id platform) params.branch_id
    rol_id ← create_id platform params.rol_id
    age ← birth_date_of now params.age
    sex ← create_sex platform params.sex
    phone ← create_phone params.phone
    ok (record {
      tenant_id = tenant_id;
      branch_id = branch_id;
      rol_id = rol_id;
      rol_name = rol_name;
      rol_scope = rol_scope;
      user_name = user_name;
      email = email;
      password = password;
      first_name = params.first_name;
      second_name = params.second_name;
      first_last_name = params.first_last_name;
      second_last_name = params.second_last_name;
      age = age;
      sex = sex;
      phone = phone;
    })

  -- `CreateUserUseCase.execute`: the rows, and the events that are published.
  unfoldable pub create_user :
      CreateUserParams
      → String
      → ℕ
      → List UserRow
      → Result UserError (List UserRow × List UserCreated)
  unfolding check_place check_credentials read_data
  create_user params id now rows = do
    rol ← check_place params
    credentials ← check_credentials params rows
    given ← read_data params now rol credentials
    user ← User_ops.create given id now
    throw_if (not (ports.accepts user)) not_stored
    ok (save user rows, user.domain_events)

  -- `ReassignUserUseCase.execute`
  unfoldable pub reassign_user :
      String → String → String → Option String → ℕ → List UserRow → Result UserError (List UserRow)
  unfolding the_user branch_exists find_rol
  reassign_user tenant id rol_id branch_id now rows = do
    user ← the_user platform tenant id now rows
    found ← find_rol rol_id
    (rol_name, rol_scope) ← or_throw (rol_not_found rol_id) found
    ensure_branch branch_id tenant
    branch ← if_given (create_id platform) branch_id
    rol ← create_id platform rol_id
    user' ← User_ops.reassign rol_scope rol rol_name branch now user
    ok (Table.update tenant user' now rows)

  -- `ToggleUserStatusUseCase.execute`
  unfoldable pub toggle_user_status :
      String → String → ℕ → List UserRow → Result UserError (List UserRow)
  unfolding the_user
  toggle_user_status tenant id now rows = do
    user ← the_user platform tenant id now rows
    user' ← if user.is_active then User_ops.deactivate now user else User_ops.activate now user
    ok (Table.update tenant user' now rows)
