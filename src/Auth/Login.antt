-- ===== src/Auth/Login.antt =====
-- Login (src/auth/application/use-cases/login/login.use-case.ts).
pub mod Order
use komi_saas_api.Base.{ℕ, suc, String, Option, none, some, Bool, not, trim, if◌then◌else◌}
use komi_saas_api.Base.Throws.{Result}
use komi_saas_api.Auth.World.{
  AuthError, invalid_credentials, inactive_account, inactive_tenant, World, Tenant, Credentials,
  Context, Tokens, Ports, Action, pure, raise, ◌>>=◌, ◌>>◌, raise_if,
}
use komi_saas_api.Auth.Issuer

pub record LoginParams : Type 0 where
  pub tenant_slug : String
  pub username : String
  pub password : String

-- `ResponseLoginDto`
pub record UserResponse : Type 0 where
  pub tenant_id : String
  pub branch_id : Option String
  pub user_id : String
  pub rol_name : String
  pub rol_scope : String
  pub user_name : String
  pub first_name : String
  pub second_name : Option String
  pub first_last_name : String
  pub second_last_name : Option String
  pub sex : String

pub record LoginResult : Type 0 where
  pub tokens : Tokens
  pub last_login : String
  pub user : UserResponse

-- `toUserResponse`: all but the password's hash and the state of the account.
unfoldable pub to_user_response : Credentials → UserResponse
to_user_response u = record {
  tenant_id = u.tenant_id;
  branch_id = u.branch_id;
  user_id = u.user_id;
  rol_name = u.rol_name;
  rol_scope = u.rol_scope;
  user_name = u.user_name;
  first_name = u.first_name;
  second_name = u.second_name;
  first_last_name = u.first_last_name;
  second_last_name = u.second_last_name;
  sex = u.sex;
}

module _ (p : Ports) where
  -- `PasswordVerifier.verify`: one comparison by argon2.
  abbrev pub verify_password : String → String → Action Bool
  verify_password plain hash w =
      (Result.ok (p.verify plain hash), record w { hashings = suc w.hashings })

  -- What a run of `argon2.hash` leaves: its hash is kept, and a failure leaves nothing kept.
  abbrev pub after_hash : Option String → World → World
  after_hash made w = record w { dummy_hash = made; attempts = suc w.attempts }

  -- `Argon2PasswordVerifier.getDummyHash`: the hash that is kept, or else a new one.
  abbrev pub get_dummy_hash : World → Option String × World
  get_dummy_hash w = elim w.dummy_hash [
    | some kept ↦ (some kept, w)
    | none ↦ (w.made w.attempts, after_hash (w.made w.attempts) w)
  ]

  -- A comparison whose answer is thrown away, where there is a hash to compare with.
  abbrev pub compare_with : Option String → World → World
  compare_with none w = w
  compare_with (some hash) w = record w { hashings = suc w.hashings }

  -- `Argon2PasswordVerifier.verifyAgainstDummy`: it never throws.
  abbrev pub verify_against_dummy : Action (Unit {0})
  verify_against_dummy w = let (hash, w') = get_dummy_hash w in (Result.ok tt, compare_with hash w')

  -- A missing tenant or user: the time is spent, and then the exception is thrown.
  abbrev pub or_dummy : {A : Type 0} → Option A → AuthError → Action A
  or_dummy none e = verify_against_dummy >> raise e
  or_dummy (some a) e = pure a

  unfoldable pub execute : LoginParams → Context → Action LoginResult
  unfolding to_user_response
  execute params context = do
    let tenant_slug = p.lower_case (trim params.tenant_slug)
    let identifier = trim params.username
    tenant ← or_dummy (p.find_by_slug tenant_slug) (invalid_credentials tenant_slug identifier)
    user ←
        or_dummy (p.find_by_user_name tenant.id identifier)
          (invalid_credentials tenant_slug identifier)
    password_matches ← verify_password params.password user.password_hash
    raise_if (not password_matches) (invalid_credentials tenant_slug identifier)
    raise_if (not tenant.is_active) (inactive_tenant tenant_slug)
    raise_if (not user.is_active) (inactive_account identifier)
    tokens ← Issuer.start p user context
    pure (record { tokens = tokens; last_login = ""; user = to_user_response user })
