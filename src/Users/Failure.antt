-- ===== src/Users/Failure.antt =====
-- The exceptions of the users (src/context/user/domain/exceptions/user-exceptions.ts), with what they
-- name, and what the platform gives to this code.
use komi_saas_api.Base.{ℕ, String, Option, Bool}

pub data UserError : Type 0 where
  invalid_uuid invalid_sex invalid_scope : String → UserError
  invalid_user_name invalid_email invalid_password invalid_phone invalid_birth_date : UserError
  already_active already_inactive empty_update : UserError
  user_not_found tenant_not_found branch_not_found rol_not_found : String → UserError
  user_name_exists email_exists : String → UserError
  administrative_in_branch operational_without_branch : UserError
  incorrect_current_password unauthorized_password_change : UserError
  -- what the database throws on an insert
  not_stored : UserError

-- JavaScript's `toUpperCase` and `toLowerCase`, the test of the uuid package, `new Date(text)`, which
-- is `none` where it is not a date, and the database's `LOWER`.
pub record Platform : Type 0 where
  pub upper_case : String → String
  pub lower_case : String → String
  pub valid_uuid : String → Bool
  pub parse_date : String → Option ℕ
  pub sql_lower : String → String
