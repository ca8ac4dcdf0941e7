-- ===== src/Users/Account.antt =====
-- The requests on what a user says of themself: update-user and change-user-password of
-- src/context/user/application/use-case.
use komi_saas_api.Base.{
  ℕ, String, Option, none, some, Bool, true, false, not, ◌&&◌, List, str_eq, if◌then◌else◌,
}
use komi_saas_api.Base.Throws.{Result, ok, err, ◌>>=◌, ◌>>◌, throw_if}
use komi_saas_api.Users.Failure.{
  UserError, Platform, user_name_exists, email_exists, incorrect_current_password,
  unauthorized_password_change,
}
use komi_saas_api.Users.Values.{
  RolScope, create_user_name, create_email, create_phone, create_plain_password, create_scope,
  create_sex, create_birth_date, from_hash,
}
use komi_saas_api.Users.User as User_ops
use komi_saas_api.Users.User.{User, UpdateParams}
use komi_saas_api.Users.Table as Table
use komi_saas_api.Users.Table.{UserRow, exists_by_email, exists_by_user_name}
use komi_saas_api.Users.Requests.{Ports, if_given, the_user}
pub mod Password
pub mod Stored

-- `UpdateUserParams` of the use case; `none` is a key that is left out, `some none` is `null`.
pub record UpdateUserParams : Type 0 where
  pub user_name : Option String
  pub email : Option (Option String)
  pub first_name : Option String
  pub second_name : Option (Option String)
  pub first_last_name : Option String
  pub second_last_name : Option (Option String)
  pub birth_date : Option String
  pub sex : Option String
  pub phone : Option String

abbrev pub is_email_of : String → Option String → Bool
is_email_of email none = false
is_email_of email (some stored) = str_eq email stored

abbrev pub is_administrative : RolScope → Bool
is_administrative RolScope.administrative = true
is_administrative RolScope.operational = false

module _ (platform : Platform) where
  -- A new name is looked for among the other users.
  unfoldable pub ensure_free_name :
      String → String → User → Option String → List UserRow → Result UserError (Unit {0})
  ensure_free_name tenant id user none rows = ok tt
  ensure_free_name tenant id user (some raw) rows = do
    user_name ← create_user_name raw
    throw_if
        (not (str_eq raw user.user_name)
          && exists_by_user_name platform tenant user_name (some id) rows)
        (user_name_exists raw)

  unfoldable pub ensure_free_email :
      String → String → User → Option (Option String) → List UserRow → Result UserError (Unit {0})
  ensure_free_email tenant id user none rows = ok tt
  ensure_free_email tenant id user (some none) rows = ok tt
  ensure_free_email tenant id user (some (some raw)) rows = do
    email ← create_email platform raw
    throw_if
        (not (is_email_of raw user.email) && exists_by_email platform tenant email (some id) rows)
        (email_exists email)

  -- `params.email === null ? null : UserEmail.create(params.email)`
  unfoldable pub email_or_null : Option String → Result UserError (Option String)
  email_or_null = if_given (create_email platform)

  -- The values of `updateParams`.
  unfoldable pub read_changes : UpdateUserParams → ℕ → Result UserError UpdateParams
  unfolding if_given email_or_null
  read_changes params now = do
    user_name ← if_given create_user_name params.user_name
    email ← if_given email_or_null params.email
    age ← if_given (create_birth_date platform now) params.birth_date
    sex ← if_given (create_sex platform) params.sex
    phone ← if_given create_phone params.phone
    ok (record {
      user_name = user_name;
      email = email;
      first_name = params.first_name;
      second_name = params.second_name;
      first_last_name = params.first_last_name;
      second_last_name = params.second_last_name;
      age = age;
      sex = sex;
      phone = phone;
    })

  -- `UpdateUserUseCase.execute`
  unfoldable pub update_user :
      String → String → UpdateUserParams → ℕ → List UserRow → Result UserError (List UserRow)
  unfolding ensure_free_name ensure_free_email read_changes
  update_user tenant id params now rows = do
    user ← the_user platform tenant id now rows
    ensure_free_name tenant id user params.user_name rows
    ensure_free_email tenant id user params.email rows
    changes ← read_changes params now
    user' ← User_ops.update changes now user
    ok (Table.update tenant user' now rows)

  -- The current password is asked of those who change their own.
  abbrev pub ensure_current_password : Ports → Option String → String → Result UserError (Unit {0})
  ensure_current_password ports none current_hash = err incorrect_current_password
  ensure_current_password ports (some raw) current_hash = do
    current ← create_plain_password raw
    throw_if (not (ports.verify current current_hash)) incorrect_current_password

  -- `ChangeUserPasswordUseCase.execute`
  unfoldable pub change_user_password :
      Ports
      → String
      → String
      → String
      → String
      → Option String
      → String
      → ℕ
      → List UserRow
      → Result UserError (List UserRow)
  change_user_password ports tenant authenticated rol_scope target current_password new_password now
        rows =
      do
        user ← the_user platform tenant target now rows
        scope ← create_scope platform rol_scope
        throw_if (not (str_eq authenticated target) && not (is_administrative scope))
            unauthorized_password_change
        (if str_eq authenticated target
            then ensure_current_password ports current_password user.password
            else ok tt)
        new_plain ← create_plain_password new_password
        hashed ← from_hash (ports.hash new_plain)
        user' ← User_ops.change_password hashed now user
        ok (Table.update tenant user' now rows)
