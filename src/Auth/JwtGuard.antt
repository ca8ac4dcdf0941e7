-- ===== src/Auth/JwtGuard.antt =====
-- The guard of every request that is not public (src/auth/infrastructure/guards/jwt-auth.guard.ts),
-- with the cookie reader (src/auth/infrastructure/http/session-cookies.ts). `@nestjs/jwt` verifies a
-- signature: it is the argument `verify_token`.
pub mod Access
use Prim.Native.Char.{Char, code}
use komi_saas_api.Base.{
  ℕ, String, Option, none, some, Bool, true, false, not, ◌==◌, str_eq, is_empty, if◌then◌else◌,
  ◌||◌,
}
use komi_saas_api.Base.Throws.{Result, ok, err, ◌>>=◌, ◌>>◌, throw_if}
use komi_saas_api.Auth.Session.{Session, Reason}
use komi_saas_api.Auth.Store
use komi_saas_api.Auth.Store.{Table}

-- The message of the `UnauthorizedException`.
pub data Rejection : Type 0 where
  token_required session_missing session_closed token_expired token_invalid : Rejection

-- A claim of the payload as `typeof` tells it apart.
pub data Claim : Type 0 where
  text : String → Claim
  null : Claim
  other : Claim

-- `AccessTokenPayload`
pub record Payload : Type 0 where
  pub sub : Claim
  pub tenant_id : Claim
  pub branch_id : Claim
  pub rol_scope : Claim
  pub jti : Claim

-- What `verifyAsync` does: it returns the payload or throws, `TokenExpiredError` or another error.
pub data Verified : Type 0 where
  payload : Payload → Verified
  expired : Verified
  rejected : Verified

-- `AuthenticatedUser`
pub record AuthenticatedUser : Type 0 where
  pub user_id : String
  pub tenant_id : String
  pub branch_id : Option String
  pub rol_scope : String
  pub session_id : String

-- What the guard reads of a request: the access cookie, if it is a text, and the header.
pub record Request : Type 0 where
  pub access_cookie : Option String
  pub authorization : Option String

-- `SessionCookies.read`
unfoldable pub read_cookie : Option String → Option String
read_cookie none = none
read_cookie (some value) = if is_empty value then none else some value

abbrev pub is_blank : Char → Bool
is_blank c = code c == 32

-- The first two parts of `header.split(' ')`.
unfoldable pub before_blank : String → String
before_blank String.[] = ""
before_blank (String.◌∷◌ c s) =
    let rest = before_blank s in if is_blank c then "" else String.◌∷◌ c rest

unfoldable pub after_blank : String → Option String
after_blank String.[] = none
after_blank (String.◌∷◌ c s) = if is_blank c then some s else after_blank s

-- `!token`: absent or empty.
abbrev pub non_empty : Option String → Option String
non_empty none = none
non_empty (some s) = if is_empty (before_blank s) then none else some (before_blank s)

abbrev pub as_text : Claim → Result Rejection String
as_text (text s) = ok s
as_text _ = err token_invalid

abbrev pub as_nullable : Claim → Result Rejection (Option String)
as_nullable (text s) = ok (some s)
as_nullable null = ok none
as_nullable other = err token_invalid

unfoldable pub to_authenticated_user : Payload → Result Rejection AuthenticatedUser
to_authenticated_user p = do
  user_id ← as_text p.sub
  tenant_id ← as_text p.tenant_id
  rol_scope ← as_text p.rol_scope
  session_id ← as_text p.jti
  branch_id ← as_nullable p.branch_id
  ok (record {
    user_id = user_id;
    tenant_id = tenant_id;
    branch_id = branch_id;
    rol_scope = rol_scope;
    session_id = session_id;
  })

-- `reason !== null && reason !== ROTATED`
abbrev pub cut : Option Reason → Bool
cut none = false
cut (some Reason.rotated) = false
cut (some _) = true

abbrev pub check_session : Option Session → Result Rejection (Unit {0})
check_session none = err session_missing
check_session (some s) = throw_if (cut s.revocation_reason) session_closed

unfoldable pub ensure_session_is_usable : Table → String → Result Rejection (Unit {0})
ensure_session_is_usable rows session_id = check_session (Store.find_by_id session_id rows)

module _ (lower_case : String → String) where
  unfoldable pub extract_bearer_token : Option String → Option String
  unfolding before_blank after_blank
  extract_bearer_token none = none
  extract_bearer_token (some header) =
      if str_eq (lower_case (before_blank header)) "bearer"
      then non_empty (after_blank header)
      else none

  abbrev pub first_of_two : Option String → Option String → Option String
  first_of_two none b = b
  first_of_two (some a) b = some a

  unfoldable pub extract_token : Request → Option String
  unfolding extract_bearer_token read_cookie
  extract_token r =
      first_of_two (read_cookie r.access_cookie) (extract_bearer_token r.authorization)

module _ (lower_case : String → String) (verify_token : String → Verified) where
  abbrev pub accept : Verified → Result Rejection AuthenticatedUser
  accept (payload p) = to_authenticated_user p
  accept expired = err token_expired
  accept rejected = err token_invalid

  abbrev pub verify : String → Result Rejection AuthenticatedUser
  verify token = accept (verify_token token)

  abbrev pub require_token : Option String → Result Rejection String
  require_token none = err token_required
  require_token (some t) = ok t

  abbrev pub identify : Table → Request → Result Rejection (Option AuthenticatedUser)
  identify rows request = do
    token ← require_token (extract_token lower_case request)
    user ← verify token
    ensure_session_is_usable rows user.session_id
    ok (some user)

  -- `canActivate`: the user set on the request, which a public route leaves as it was.
  unfoldable pub can_activate : Bool → Table → Request → Result Rejection (Option AuthenticatedUser)
  unfolding extract_token to_authenticated_user ensure_session_is_usable
  can_activate is_public rows request = if is_public then ok none else identify rows request
