-- ===== src/Branches/Branch.antt =====
-- The branch (src/context/branch/domain/branch.aggregate.ts), its value objects and its exceptions. The
-- moment of a change is an argument; JavaScript's `toLowerCase` is the argument `lower_case`.
use komi_saas_api.Base.{
  ℕ, String, Option, none, some, Bool, true, false, not, ◌&&◌, str_eq, is_some, or_else,
}
use komi_saas_api.Base.Throws.{Result, ok, ◌>>=◌, ◌>>◌, throw_if}
use komi_saas_api.Shared.Value.{trimmed_between}

pub data BranchError : Type 0 where
  invalid_uuid branch_not_found tenant_not_found name_exists : String → BranchError
  already_inactive already_active empty_update field_unchanged : String → BranchError
  invalid_name invalid_address invalid_city invalid_department invalid_phone : String → BranchError
  -- what the database throws, but for a unique index
  not_stored : BranchError

pub record Branch : Type 0 where
  pub id : String
  pub tenant_id : String
  pub name : String
  pub address : String
  pub phone : String
  pub city : String
  pub department : String
  pub is_active : Bool
  pub is_deleted : Bool
  pub created_at : ℕ
  pub updated_at : ℕ

-- `BranchName.create` and the others.
unfoldable pub create_name : String → Result BranchError String
create_name =
    trimmed_between 2 30 (BranchError.invalid_name "mínimo 2 caracteres")
      (BranchError.invalid_name "máximo 30 caracteres")

unfoldable pub create_address : String → Result BranchError String
create_address =
    trimmed_between 5 100 (BranchError.invalid_address "mínimo 5 caracteres")
      (BranchError.invalid_address "máximo 100 caracteres")

unfoldable pub create_city : String → Result BranchError String
create_city =
    trimmed_between 2 50 (BranchError.invalid_city "mínimo 2 caracteres")
      (BranchError.invalid_city "máximo 50 caracteres")

unfoldable pub create_department : String → Result BranchError String
create_department =
    trimmed_between 2 50 (BranchError.invalid_department "mínimo 2 caracteres")
      (BranchError.invalid_department "máximo 50 caracteres")

unfoldable pub create_phone : String → Result BranchError String
create_phone =
    trimmed_between 7 15 (BranchError.invalid_phone "mínimo 7 caracteres")
      (BranchError.invalid_phone "máximo 15 caracteres")

-- The five values of `create`, and of the use case's parameters.
pub record BranchData : Type 0 where
  pub name : String
  pub address : String
  pub phone : String
  pub city : String
  pub department : String

-- The parameters of `update`; a key that is left out is `none`.
pub record Changes : Type 0 where
  pub name : Option String
  pub address : Option String
  pub phone : Option String
  pub city : Option String
  pub department : Option String
  pub is_active : Option Bool

unfoldable pub create : String → BranchData → String → ℕ → Branch
create tenant_id values id now = record {
  id = id;
  tenant_id = tenant_id;
  name = values.name;
  address = values.address;
  phone = values.phone;
  city = values.city;
  department = values.department;
  is_active = true;
  is_deleted = false;
  created_at = now;
  updated_at = now;
}

unfoldable pub touch : ℕ → Branch → Branch
touch now b = record b { updated_at = now }

unfoldable pub activate : Branch → Result BranchError Branch
activate b =
    throw_if b.is_active (BranchError.already_active b.id) >> ok (record b { is_active = true })

unfoldable pub deactivate : Branch → Result BranchError Branch
deactivate b = do
  throw_if (not b.is_active) (BranchError.already_inactive b.id)
  ok (record b { is_active = false })

unfoldable pub set_active : Option Bool → Branch → Result BranchError Branch
unfolding activate deactivate
set_active none b = ok b
set_active (some true) b = activate b
set_active (some false) b = deactivate b

-- `Object.keys(params).length === 0`
unfoldable pub is_empty_change : Changes → Bool
is_empty_change p =
    not (is_some p.name)
    && not (is_some p.address)
    && not (is_some p.phone)
    && not (is_some p.city)
    && not (is_some p.department)
    && not (is_some p.is_active)

-- `sent?.value === current.value`
abbrev pub ensure_changed : String → Option String → String → Result BranchError (Unit {0})
ensure_changed field none current = ok tt
ensure_changed field (some sent) current =
    throw_if (str_eq sent current) (BranchError.field_unchanged field)

unfoldable pub update : Changes → ℕ → Branch → Result BranchError Branch
unfolding is_empty_change set_active touch
update p now b = do
  throw_if (is_empty_change p) (BranchError.empty_update b.id)
  ensure_changed "nombre" p.name b.name
  ensure_changed "dirección" p.address b.address
  ensure_changed "teléfono" p.phone b.phone
  ensure_changed "ciudad" p.city b.city
  ensure_changed "departamento" p.department b.department
  b' ← set_active p.is_active b
  ok (
      touch now (record b' {
        name = or_else p.name b.name;
        address = or_else p.address b.address;
        phone = or_else p.phone b.phone;
        city = or_else p.city b.city;
        department = or_else p.department b.department;
      }))

unfoldable pub delete : ℕ → Branch → Branch
unfolding touch
delete now b = touch now (record b { is_deleted = true })

-- `hasName`, and `BranchName.equals`.
unfoldable pub has_name : (String → String) → String → Branch → Bool
has_name lower_case name b = str_eq (lower_case b.name) (lower_case name)
