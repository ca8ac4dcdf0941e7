-- ===== src/Users/Table.antt =====
-- The table of the users (src/context/user/infrastructure/persistence: models/user.entity.ts,
-- mappers/user.mapper.ts, repository/user.repository.ts), and `fromPrimitives` and `toPrimitives` of
-- domain/user.aggregate.ts, through which it is read and written.
use komi_saas_api.Base.{
  ℕ, String, Option, none, some, Bool, true, false, not, ◌&&◌, List, [], ◌∷◌, ◌++◌, map, find, any,
  is_empty, str_eq, if◌then◌else◌,
}
use komi_saas_api.Base.Throws.{Result, ok, ◌>>=◌}
use komi_saas_api.Users.Failure.{UserError, Platform}
use komi_saas_api.Users.Values.{
  create_id, create_user_name, create_email, create_phone, create_scope, create_sex, from_hash,
  birth_date_of, scope_text, sex_text,
}
use komi_saas_api.Users.User.{User}

-- `UserEntity`, and `UserPrimitives`, which has the same fields.
pub record UserRow : Type 0 where
  pub id : String
  pub tenant_id : String
  pub branch_id : Option String
  pub rol_id : String
  pub rol_name : String
  pub rol_scope : String
  pub user_name : String
  pub email : Option String
  pub password : String
  pub first_name : String
  pub second_name : Option String
  pub first_last_name : String
  pub second_last_name : Option String
  pub age : ℕ
  pub sex : String
  pub phone : String
  pub is_active : Bool
  pub created_at : ℕ
  pub updated_at : ℕ

unfoldable pub to_primitives : User → UserRow
to_primitives user = record {
  id = user.id;
  tenant_id = user.tenant_id;
  branch_id = user.branch_id;
  rol_id = user.rol_id;
  rol_name = user.rol_name;
  rol_scope = scope_text user.rol_scope;
  user_name = user.user_name;
  email = user.email;
  password = user.password;
  first_name = user.first_name;
  second_name = user.second_name;
  first_last_name = user.first_last_name;
  second_last_name = user.second_last_name;
  age = user.age;
  sex = sex_text user.sex;
  phone = user.phone;
  is_active = user.is_active;
  created_at = user.created_at;
  updated_at = user.updated_at;
}

-- `text ? create(text) : null`
unfoldable pub create_given :
    (String → Result UserError String) → Option String → Result UserError (Option String)
create_given create none = ok none
create_given create (some text) =
    if is_empty text then ok none else create text >>= λ value. ok (some value)

abbrev pub same_key : String → String → UserRow → Bool
same_key tenant id row = str_eq row.tenant_id tenant && str_eq row.id id

module _ (platform : Platform) where
  -- `UserMapper.toAggregate`, at the moment `today`.
  unfoldable pub from_primitives : ℕ → UserRow → Result UserError User
  from_primitives today row = do
    id ← create_id platform row.id
    tenant_id ← create_id platform row.tenant_id
    branch_id ← create_given (create_id platform) row.branch_id
    rol_id ← create_id platform row.rol_id
    rol_scope ← create_scope platform row.rol_scope
    user_name ← create_user_name row.user_name
    email ← create_given (create_email platform) row.email
    password ← from_hash row.password
    age ← birth_date_of today row.age
    sex ← create_sex platform row.sex
    phone ← create_phone row.phone
    ok (record {
      id = id;
      tenant_id = tenant_id;
      branch_id = branch_id;
      rol_id = rol_id;
      rol_name = row.rol_name;
      rol_scope = rol_scope;
      user_name = user_name;
      email = email;
      password = password;
      first_name = row.first_name;
      second_name = row.second_name;
      first_last_name = row.first_last_name;
      second_last_name = row.second_last_name;
      age = age;
      sex = sex;
      phone = phone;
      is_active = row.is_active;
      created_at = row.created_at;
      updated_at = row.updated_at;
      domain_events = [];
    })

  abbrev pub optional_aggregate : ℕ → Option UserRow → Result UserError (Option User)
  optional_aggregate today none = ok none
  optional_aggregate today (some row) = from_primitives today row >>= λ user. ok (some user)

  unfoldable pub search_aggregate_by_id :
      String → String → ℕ → List UserRow → Result UserError (Option User)
  unfolding from_primitives
  search_aggregate_by_id tenant id today rows =
      optional_aggregate today (find (same_key tenant id) rows)

  -- `exceptId ? … : …`
  abbrev pub is_other : Option String → UserRow → Bool
  is_other none row = true
  is_other (some id) row = not (str_eq row.id id)

  abbrev pub has_email : String → Option String → Bool
  has_email email none = false
  has_email email (some stored) = str_eq (platform.sql_lower stored) (platform.sql_lower email)

  unfoldable pub exists_by_email : String → String → Option String → List UserRow → Bool
  exists_by_email tenant email except_id rows =
      any
        (λ row. str_eq row.tenant_id tenant && has_email email row.email && is_other except_id row)
        rows

  unfoldable pub exists_by_user_name : String → String → Option String → List UserRow → Bool
  exists_by_user_name tenant user_name except_id rows =
      any
        (λ row.
          str_eq row.tenant_id tenant
          && str_eq (platform.sql_lower row.user_name) (platform.sql_lower user_name)
          && is_other except_id row)
        rows

-- `save` of a user with a new id.
unfoldable pub save : User → List UserRow → List UserRow
unfolding to_primitives
save user rows = rows ++ (to_primitives user ∷ [])

-- The row of the user's key is written over, but for the key and the moment of its creation.
abbrev pub written : String → User → ℕ → UserRow → UserRow
written tenant user now row =
    if same_key tenant user.id row
    then record (to_primitives user) {
      id = row.id;
      tenant_id = row.tenant_id;
      created_at = row.created_at;
      updated_at = now;
    }
    else row

unfoldable pub update : String → User → ℕ → List UserRow → List UserRow
unfolding to_primitives
update tenant user now rows = map (written tenant user now) rows
