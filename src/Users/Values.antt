-- ===== src/Users/Values.antt =====
-- The value objects of a user (src/context/user/domain/value-object, and `Uuid` of
-- src/shared/value-object/uuid.value-object.ts). A value is kept as the text, or the moment, it holds.
use Prim.Native.Char.{Char, code}
use komi_saas_api.Base.{
  ℕ, String, Option, none, some, Bool, true, false, not, ◌&&◌, ◌||◌, ltb, leb, ◌==◌, is_empty,
  is_space, trim, utf16_length, str_eq, if◌then◌else◌,
}
use komi_saas_api.Base.Throws.{Result, ok, err, ◌>>◌, throw_if}
use komi_saas_api.Users.Failure.{
  UserError, Platform, invalid_uuid, invalid_sex, invalid_scope, invalid_user_name, invalid_email,
  invalid_password, invalid_phone, invalid_birth_date,
}

unfoldable pub all_chars : (Char → Bool) → String → Bool
all_chars p String.[] = true
all_chars p (String.◌∷◌ c s) = p c && all_chars p s

unfoldable pub any_char : (Char → Bool) → String → Bool
any_char p String.[] = false
any_char p (String.◌∷◌ c s) = p c || any_char p s

abbrev pub in_range : ℕ → ℕ → Char → Bool
in_range low high c = leb low (code c) && leb (code c) high

-- `[A-Z]`, `[a-z]` and `[0-9]`
abbrev pub is_upper : Char → Bool
is_upper = in_range 65 90

abbrev pub is_lower : Char → Bool
is_lower = in_range 97 122

abbrev pub is_digit : Char → Bool
is_digit = in_range 48 57

-- `new Uuid(value)`
unfoldable pub create_id : Platform → String → Result UserError String
create_id platform value =
    throw_if (is_empty value || not (platform.valid_uuid value)) (invalid_uuid value) >> ok value

-- `[a-zA-Z0-9._-]`
abbrev pub is_name_char : Char → Bool
is_name_char c =
    is_upper c || is_lower c || is_digit c || code c == 46 || code c == 95 || code c == 45

-- `UserName.create`
unfoldable pub create_user_name : String → Result UserError String
unfolding all_chars
create_user_name raw = do
  let value = trim raw
  throw_if (ltb (utf16_length value) 3) invalid_user_name
  throw_if (ltb 30 (utf16_length value)) invalid_user_name
  throw_if (not (all_chars is_name_char value)) invalid_user_name
  ok value

-- `[^\s@]`
abbrev pub is_plain : Char → Bool
is_plain c = not (is_space c || code c == 64)

-- `[^\s@]*\.[^\s@]{2,}$`, in a text of plain characters.
unfoldable pub has_ending : String → Bool
has_ending String.[] = false
has_ending (String.◌∷◌ c s) = (code c == 46 && leb 2 (utf16_length s)) || has_ending s

-- `[^\s@]+\.[^\s@]{2,}$`
abbrev pub is_domain : String → Bool
is_domain String.[] = false
is_domain (String.◌∷◌ c s) = all_chars is_plain (String.◌∷◌ c s) && has_ending s

-- `[^\s@]*@…$`
unfoldable pub has_domain : String → Bool
unfolding all_chars has_ending
has_domain String.[] = false
has_domain (String.◌∷◌ c s) =
    let rest = has_domain s in if code c == 64 then is_domain s else is_plain c && rest

-- `/^[^\s@]+@[^\s@]+\.[^\s@]{2,}$/`
abbrev pub is_email : String → Bool
is_email String.[] = false
is_email (String.◌∷◌ c s) = is_plain c && has_domain s

-- `UserEmail.create`
unfoldable pub create_email : Platform → String → Result UserError String
unfolding has_domain
create_email platform raw = do
  let value = platform.lower_case (trim raw)
  throw_if (is_empty value) invalid_email
  throw_if (ltb 120 (utf16_length value)) invalid_email
  throw_if (not (is_email value)) invalid_email
  ok value

-- `[0-9+\-\s()]`
abbrev pub is_phone_char : Char → Bool
is_phone_char c =
    is_digit c || code c == 43 || code c == 45 || is_space c || code c == 40 || code c == 41

-- `UserPhone.create`
unfoldable pub create_phone : String → Result UserError String
unfolding all_chars
create_phone raw = do
  let value = trim raw
  throw_if (ltb (utf16_length value) 7) invalid_phone
  throw_if (ltb 15 (utf16_length value)) invalid_phone
  throw_if (not (all_chars is_phone_char value)) invalid_phone
  ok value

-- `UserPlainPassword.create`
unfoldable pub create_plain_password : String → Result UserError String
unfolding any_char
create_plain_password raw = do
  throw_if (ltb (utf16_length raw) 12) invalid_password
  throw_if (not (any_char is_upper raw)) invalid_password
  throw_if (not (any_char is_lower raw)) invalid_password
  throw_if (not (any_char is_digit raw)) invalid_password
  ok raw

-- `s.startsWith(prefix)`
unfoldable pub starts_with : String → String → Bool
starts_with String.[] s = true
starts_with (String.◌∷◌ c cs) String.[] = false
starts_with (String.◌∷◌ c cs) (String.◌∷◌ x xs) = code c == code x && starts_with cs xs

-- `UserHashedPassword.fromHash`
unfoldable pub from_hash : String → Result UserError String
unfolding starts_with
from_hash hash = throw_if (not (starts_with "$argon2" hash)) invalid_password >> ok hash

pub data RolScope : Type 0 where
  administrative operational : RolScope

abbrev pub scope_text : RolScope → String
scope_text RolScope.administrative = "ADMINISTRATIVE"
scope_text RolScope.operational = "OPERATIONAL"

-- `UserRolScope.create`
unfoldable pub create_scope : Platform → String → Result UserError RolScope
create_scope platform raw =
    let scope = platform.upper_case raw in
    if str_eq scope "ADMINISTRATIVE"
    then ok RolScope.administrative
    else if str_eq scope "OPERATIONAL"
    then ok RolScope.operational
    else err (invalid_scope raw)

pub data Sex : Type 0 where
  male female : Sex

abbrev pub sex_text : Sex → String
sex_text Sex.male = "MALE"
sex_text Sex.female = "FEMALE"

-- `UserSex.create`
unfoldable pub create_sex : Platform → String → Result UserError Sex
create_sex platform raw =
    let sex = platform.upper_case raw in
    if str_eq sex "MALE"
    then ok Sex.male
    else if str_eq sex "FEMALE"
    then ok Sex.female
    else err (invalid_sex raw)

-- `UserBirthDate.create` of a moment.
unfoldable pub birth_date_of : ℕ → ℕ → Result UserError ℕ
birth_date_of today value = throw_if (ltb today value) invalid_birth_date >> ok value

abbrev pub parsed_birth_date : ℕ → Option ℕ → Result UserError ℕ
parsed_birth_date today none = err invalid_birth_date
parsed_birth_date today (some value) = birth_date_of today value

-- `UserBirthDate.create` of a text.
unfoldable pub create_birth_date : Platform → ℕ → String → Result UserError ℕ
unfolding birth_date_of
create_birth_date platform today raw = parsed_birth_date today (platform.parse_date raw)
