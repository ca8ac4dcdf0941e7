-- ===== src/Auth/World.antt =====
-- What the use cases of src/auth act on, and the ports that they call. A use case is an action: it
-- runs on a world and returns, with the world that it leaves, a value or the exception thrown;
-- what was written before a throw stays written.
use komi_saas_api.Base.{ℕ, suc, String, Option, none, some, Bool, Result, ok, err, if◌then◌else◌}
use komi_saas_api.Auth.Store.{Table}

pub data AuthError : Type 0 where
  invalid_credentials : String → String → AuthError
  inactive_account : String → AuthError
  inactive_tenant : String → AuthError
  invalid_refresh_token : AuthError
  expired_refresh_token : AuthError
  refresh_token_reuse_detected : String → AuthError

-- `times n` is what the n-th `new Date()` reads, `ids n` the n-th UUID drawn and `secrets n` the n-th
-- value of `randomBytes`; the counters say how many were used. `hashings` counts the runs of
-- `argon2.verify`. `dummy_hash` is what the verifier of passwords keeps, `made n` what the n-th run of
-- `argon2.hash` gives, nothing where it fails, and `attempts` counts those runs.
pub record World : Type 0 where
  pub sessions : Table
  pub times : ℕ → ℕ
  pub reads : ℕ
  pub ids : ℕ → String
  pub drawn : ℕ
  pub secrets : ℕ → String
  pub minted : ℕ
  pub hashings : ℕ
  pub dummy_hash : Option String
  pub made : ℕ → Option String
  pub attempts : ℕ

-- `ResolvedTenant`
pub record Tenant : Type 0 where
  pub id : String
  pub name : String
  pub description : String
  pub slug : String
  pub nit : String
  pub created_at : ℕ
  pub updated_at : ℕ
  pub is_active : Bool

-- `AuthUserCredentials`
pub record Credentials : Type 0 where
  pub user_id : String
  pub tenant_id : String
  pub branch_id : Option String
  pub rol_name : String
  pub rol_scope : String
  pub user_name : String
  pub first_name : String
  pub second_name : Option String
  pub first_last_name : String
  pub second_last_name : Option String
  pub sex : String
  pub password_hash : String
  pub is_active : Bool

-- `SessionClaims`
pub record Claims : Type 0 where
  pub user_id : String
  pub tenant_id : String
  pub branch_id : Option String
  pub rol_scope : String
  pub session_id : String

-- `SessionContext`
pub record Context : Type 0 where
  pub ip_address : Option String
  pub user_agent : Option String

-- `AuthTokens`
pub record Tokens : Type 0 where
  pub access_token : String
  pub access_expires_at : ℕ
  pub refresh_token : String
  pub refresh_expires_at : ℕ

-- The ports: the tenants and users in the database, argon2's comparison (false where it throws), the signature of a token,
-- SHA-256, and the case mapping of the JavaScript runtime.
pub record Ports : Type 0 where
  pub find_by_slug : String → Option Tenant
  pub find_tenant_by_id : String → Option Tenant
  pub find_by_user_name : String → String → Option Credentials
  pub find_by_user_id : String → String → Option Credentials
  pub verify : String → String → Bool
  pub sign : Claims → ℕ → String
  pub hash : String → String
  pub lower_case : String → String
  pub access_ttl_seconds : ℕ
  pub refresh_ttl_days : ℕ

abbrev pub Action : Type 0 → Type 0
Action A = World → Result AuthError A × World

module _ {A : Type 0} where
  abbrev pub gets : (World → A) → Action A
  gets f w = (ok (f w), w)

  abbrev pub pure : A → Action A
  pure a w = (ok a, w)

  abbrev pub raise : AuthError → Action A
  raise e w = (err e, w)

  abbrev pub or_raise : Option A → AuthError → Action A
  or_raise none e = raise e
  or_raise (some a) _ = pure a

infixl 5 ◌>>=◌ ◌>>◌
abbrev pub ◌>>=◌ : {A B : Type 0} → Action A → (A → Action B) → Action B
◌>>=◌ m f w = let (r, w') = m w in elim r [ ok a ↦ f a w' | err e ↦ raise e w' ]

abbrev pub ◌>>◌ : {A B : Type 0} → Action A → Action B → Action B
m >> k = m >>= λ _. k

abbrev pub raise_if : Bool → AuthError → Action (Unit {0})
raise_if c e w = (if c then err e else ok tt, w)

abbrev pub read_clock : Action ℕ
read_clock w = (ok (w.times w.reads), record w { reads = suc w.reads })

abbrev pub draw_id : Action String
draw_id w = (ok (w.ids w.drawn), record w { drawn = suc w.drawn })

abbrev pub mint : Action String
mint w = (ok (w.secrets w.minted), record w { minted = suc w.minted })

abbrev pub write : (Table → Table) → Action (Unit {0})
write f w = (ok tt, record w { sessions = f w.sessions })
