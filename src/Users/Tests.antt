-- ===== src/Users/Tests.antt =====
-- The requests on users at a concrete table.
use komi_saas_api.Base.{
  none, some, true, false, List, [], ◌∷◌, ◌≡◌, refl, All, trim, utf16_length, str_eq, find,
}
use komi_saas_api.Base.Throws.{ok, err}
use komi_saas_api.Users.Failure.{Platform, invalid_email}
use komi_saas_api.Users.Values.{
  RolScope, Sex, all_chars, any_char, create_id, create_user_name, create_email, create_phone,
  create_plain_password, create_scope, create_sex, birth_date_of, from_hash, starts_with,
  has_domain, has_ending,
}
use komi_saas_api.Users.User as User_ops
use komi_saas_api.Users.User.{User, ensure_active, ensure_branch_matches_rol_scope}
use komi_saas_api.Users.Table as Table
use komi_saas_api.Users.Table.{
  UserRow, same_key, create_given, to_primitives, from_primitives, search_aggregate_by_id,
  exists_by_email, exists_by_user_name, save,
}
use komi_saas_api.Users.Requests.{
  Ports, CreateUserParams, the_user, or_throw, tenant_exists, branch_exists, find_rol,
  ensure_branch, ensure_new_email, check_place, check_credentials, read_data, create_user,
  toggle_user_status,
}
use komi_saas_api.Users.Account.{change_user_password}
use komi_saas_api.Users.Account.Stored.{PasswordSet, others}
use komi_saas_api.Users.Account.Password.{MayChange, Strong, password_changed_by_right}
use komi_saas_api.Users.Scope.{ScopeFits}
use komi_saas_api.Users.Scope.Steps.{start, then_step, created, toggled, requests_keep_scope}

abbrev plain_platform : Platform
plain_platform = record {
  upper_case = λ s. s;
  lower_case = λ s. s;
  valid_uuid = λ s. true;
  parse_date = λ s. none;
  sql_lower = λ s. s;
}

abbrev ports : Ports
ports = record {
  find_tenant = λ id. some true;
  branch_in_tenant = λ branch tenant. true;
  find_rol = λ id. some ("cashier", "OPERATIONAL");
  verify = λ raw hash. str_eq raw "OldPassword1";
  hash = λ raw. "$argon2id$new";
  accepts = λ user. true;
}

email_example : create_email plain_platform " ana@cafe.co " ≡ ok "ana@cafe.co"
unfolding create_email has_domain all_chars has_ending trim utf16_length
email_example = refl

two_signs_example : create_email plain_platform "ana@cafe@x.co" ≡ err invalid_email
unfolding create_email has_domain all_chars has_ending trim utf16_length
two_signs_example = refl

abbrev params : CreateUserParams
params = record {
  tenant_id = "t1";
  branch_id = some "b1";
  rol_id = "r1";
  user_name = "ana";
  email = some "ana@cafe.co";
  password = "OldPassword1";
  first_name = "Ana";
  second_name = none;
  first_last_name = "Ruiz";
  second_last_name = none;
  age = 5;
  sex = "FEMALE";
  phone = "3001234567";
}

abbrev ana : User
ana = record {
  id = "u1";
  tenant_id = "t1";
  branch_id = some "b1";
  rol_id = "r1";
  rol_name = "cashier";
  rol_scope = RolScope.operational;
  user_name = "ana";
  email = some "ana@cafe.co";
  password = "$argon2id$new";
  first_name = "Ana";
  second_name = none;
  first_last_name = "Ruiz";
  second_last_name = none;
  age = 5;
  sex = Sex.female;
  phone = "3001234567";
  is_active = true;
  created_at = 9;
  updated_at = 9;
  domain_events = [];
}

abbrev table : List UserRow
table = save ana []

abbrev events : List User_ops.UserCreated
events =
    record {
      user_id = "u1";
      tenant_id = "t1";
      branch_id = some "b1";
      rol_id = "r1";
      rol_scope = RolScope.operational;
      user_name = "ana";
      email = some "ana@cafe.co";
      first_name = "Ana";
      second_name = none;
      first_last_name = "Ruiz";
      second_last_name = none;
      age = 5;
      sex = Sex.female;
      phone = "3001234567";
      is_active = true;
    }
    ∷ []

is_created : create_user plain_platform ports params "u1" 9 [] ≡ ok (table, events)
unfolding create_user check_place check_credentials read_data tenant_exists branch_exists find_rol
    ensure_branch or_throw create_given ensure_new_email exists_by_email exists_by_user_name
    create_id create_scope create_email has_domain has_ending create_user_name create_plain_password
    from_hash starts_with birth_date_of create_sex create_phone User_ops.create
    ensure_branch_matches_rol_scope all_chars any_char trim utf16_length save to_primitives
is_created = refl

abbrev inactive : List UserRow
inactive = Table.update "t1" (record ana { is_active = false; updated_at = 12 }) 12 table

is_toggled : toggle_user_status plain_platform ports "t1" "u1" 12 table ≡ ok inactive
unfolding toggle_user_status the_user search_aggregate_by_id from_primitives or_throw create_given
    create_id create_scope create_email has_domain has_ending create_user_name from_hash starts_with
    birth_date_of create_sex create_phone User_ops.deactivate all_chars trim utf16_length save
    to_primitives Table.update
is_toggled = refl

requests_keep_scope_example : All ScopeFits inactive
requests_keep_scope_example =
    requests_keep_scope plain_platform ports refl refl
      (then_step (created params "u1" 9 events is_created)
        (then_step (toggled "t1" "u1" 12 is_toggled) start))
      tt

abbrev changed : List UserRow
changed = Table.update "t1" (record ana { password = "$argon2id$new"; updated_at = 20 }) 20 table

is_changed :
    change_user_password plain_platform ports "t1" "u1" "OPERATIONAL" "u1"
      (some "OldPassword1")
      "NewPassword2"
      20
      table
    ≡ ok changed
unfolding change_user_password the_user search_aggregate_by_id from_primitives or_throw create_given
    create_id create_scope create_email has_domain has_ending create_user_name from_hash starts_with
    birth_date_of create_sex create_phone create_plain_password any_char User_ops.change_password
    ensure_active all_chars trim utf16_length save to_primitives Table.update
is_changed = refl

password_changed_by_right_example :
    (user : User) × (the_user plain_platform "t1" "u1" 20 table ≡ ok user)
    × (user.is_active ≡ true)
    × MayChange plain_platform ports "u1" "u1" "OPERATIONAL" (some "OldPassword1") user
    × Strong "NewPassword2"
    × (old row : UserRow) × (find (same_key "t1" "u1") table ≡ some old)
    × (find (same_key "t1" "u1") changed ≡ some row)
    × PasswordSet plain_platform "$argon2id$new" 20 old row
    × (others "t1" "u1" changed ≡ others "t1" "u1" table)
password_changed_by_right_example =
    password_changed_by_right plain_platform ports "t1" "u1" "OPERATIONAL" "u1"
      (some "OldPassword1") "NewPassword2" 20 table changed is_changed
