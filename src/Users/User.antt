-- ===== src/Users/User.antt =====
-- A user (src/context/user/domain/user.aggregate.ts) and the event of its creation
-- (domain/events/user-created.event.ts).
use komi_saas_api.Base.{
  ℕ, String, Option, Bool, true, false, not, ◌||◌, List, [], ◌∷◌, is_some, or_else,
}
use komi_saas_api.Base.Throws.{Result, ok, ◌>>◌, throw_if}
use komi_saas_api.Users.Failure.{
  UserError, already_active, already_inactive, empty_update, administrative_in_branch,
  operational_without_branch,
}
use komi_saas_api.Users.Values.{RolScope, Sex}

-- `UserCreatedEvent`
pub record UserCreated : Type 0 where
  pub user_id : String
  pub tenant_id : String
  pub branch_id : Option String
  pub rol_id : String
  pub rol_scope : RolScope
  pub user_name : String
  pub email : Option String
  pub first_name : String
  pub second_name : Option String
  pub first_last_name : String
  pub second_last_name : Option String
  pub age : ℕ
  pub sex : Sex
  pub phone : String
  pub is_active : Bool

pub record User : Type 0 where
  pub id : String
  pub tenant_id : String
  pub branch_id : Option String
  pub rol_id : String
  pub rol_name : String
  pub rol_scope : RolScope
  pub user_name : String
  pub email : Option String
  pub password : String
  pub first_name : String
  pub second_name : Option String
  pub first_last_name : String
  pub second_last_name : Option String
  pub age : ℕ
  pub sex : Sex
  pub phone : String
  pub is_active : Bool
  pub created_at : ℕ
  pub updated_at : ℕ
  pub domain_events : List UserCreated

abbrev pub touch : ℕ → User → User
touch now user = record user { updated_at = now }

unfoldable pub ensure_branch_matches_rol_scope :
    RolScope → Option String → Result UserError (Unit {0})
ensure_branch_matches_rol_scope RolScope.administrative branch =
    throw_if (is_some branch) administrative_in_branch
ensure_branch_matches_rol_scope RolScope.operational branch =
    throw_if (not (is_some branch)) operational_without_branch

pub record UserData : Type 0 where
  pub tenant_id : String
  pub branch_id : Option String
  pub rol_id : String
  pub rol_name : String
  pub rol_scope : RolScope
  pub user_name : String
  pub email : Option String
  pub password : String
  pub first_name : String
  pub second_name : Option String
  pub first_last_name : String
  pub second_last_name : Option String
  pub age : ℕ
  pub sex : Sex
  pub phone : String

unfoldable pub create : UserData → String → ℕ → Result UserError User
unfolding ensure_branch_matches_rol_scope
create params id now = do
  ensure_branch_matches_rol_scope params.rol_scope params.branch_id
  ok (record {
    id = id;
    tenant_id = params.tenant_id;
    branch_id = params.branch_id;
    rol_id = params.rol_id;
    rol_name = params.rol_name;
    rol_scope = params.rol_scope;
    user_name = params.user_name;
    email = params.email;
    password = params.password;
    first_name = params.first_name;
    second_name = params.second_name;
    first_last_name = params.first_last_name;
    second_last_name = params.second_last_name;
    age = params.age;
    sex = params.sex;
    phone = params.phone;
    is_active = true;
    created_at = now;
    updated_at = now;
    domain_events =
        record {
          user_id = id;
          tenant_id = params.tenant_id;
          branch_id = params.branch_id;
          rol_id = params.rol_id;
          rol_scope = params.rol_scope;
          user_name = params.user_name;
          email = params.email;
          first_name = params.first_name;
          second_name = params.second_name;
          first_last_name = params.first_last_name;
          second_last_name = params.second_last_name;
          age = params.age;
          sex = params.sex;
          phone = params.phone;
          is_active = true;
        }
        ∷ [];
  })

unfoldable pub ensure_active : User → Result UserError (Unit {0})
ensure_active user = throw_if (not user.is_active) already_inactive

unfoldable pub change_password : String → ℕ → User → Result UserError User
unfolding ensure_active
change_password password now user = do
  ensure_active user
  ok (touch now (record user { password = password }))

unfoldable pub reassign :
    RolScope → String → String → Option String → ℕ → User → Result UserError User
unfolding ensure_active ensure_branch_matches_rol_scope
reassign scope rol_id rol_name branch_id now user = do
  ensure_active user
  ensure_branch_matches_rol_scope scope branch_id
  ok (
      touch now (record user {
        rol_id = rol_id;
        rol_name = rol_name;
        rol_scope = scope;
        branch_id = branch_id;
      }))

unfoldable pub deactivate : ℕ → User → Result UserError User
deactivate now user = do
  throw_if (not user.is_active) already_inactive
  ok (touch now (record user { is_active = false }))

unfoldable pub activate : ℕ → User → Result UserError User
activate now user = do
  throw_if user.is_active already_active
  ok (touch now (record user { is_active = true }))

-- `UserUpdateParams`; `none` is a key that is left out.
pub record UpdateParams : Type 0 where
  pub user_name : Option String
  pub email : Option (Option String)
  pub first_name : Option String
  pub second_name : Option (Option String)
  pub first_last_name : Option String
  pub second_last_name : Option (Option String)
  pub age : Option ℕ
  pub sex : Option Sex
  pub phone : Option String

abbrev pub has_changes : UpdateParams → Bool
has_changes params =
    is_some params.user_name
    || is_some params.email
    || is_some params.first_name
    || is_some params.second_name
    || is_some params.first_last_name
    || is_some params.second_last_name
    || is_some params.age
    || is_some params.sex
    || is_some params.phone

unfoldable pub update : UpdateParams → ℕ → User → Result UserError User
unfolding ensure_active
update params now user = do
  ensure_active user
  throw_if (not (has_changes params)) empty_update
  ok (
      touch now (record user {
        user_name = or_else params.user_name user.user_name;
        email = or_else params.email user.email;
        first_name = or_else params.first_name user.first_name;
        second_name = or_else params.second_name user.second_name;
        first_last_name = or_else params.first_last_name user.first_last_name;
        second_last_name = or_else params.second_last_name user.second_last_name;
        age = or_else params.age user.age;
        sex = or_else params.sex user.sex;
        phone = or_else params.phone user.phone;
      }))

unfoldable pub change_credentials : Option String → String → ℕ → User → Result UserError User
unfolding ensure_active
change_credentials email user_name now user = do
  ensure_active user
  ok (touch now (record user { email = email; user_name = user_name }))

-- The fields of `updateProfile`.
pub record Profile : Type 0 where
  pub first_name : String
  pub second_name : Option String
  pub first_last_name : String
  pub second_last_name : Option String
  pub age : ℕ
  pub sex : Sex
  pub phone : String

unfoldable pub update_profile : Profile → ℕ → User → Result UserError User
unfolding ensure_active
update_profile profile now user = do
  ensure_active user
  ok (
      touch now (record user {
        first_name = profile.first_name;
        second_name = profile.second_name;
        first_last_name = profile.first_last_name;
        second_last_name = profile.second_last_name;
        age = profile.age;
        sex = profile.sex;
        phone = profile.phone;
      }))
