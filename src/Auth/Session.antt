-- ===== src/Auth/Session.antt =====
-- The session aggregate (src/auth/domain/session.aggregate.ts): one refresh token's life.
-- A `Date` is its number of milliseconds; `new Date()` is the argument `now`.
pub mod Lifecycle
use komi_saas_api.Base.{
  ℕ, String, Option, none, some, Bool, true, false, ◌&&◌, ltb, leb, is_some, if◌then◌else◌,
}

-- `SessionRevocationReason`
pub data Reason : Type 0 where
  logout rotated reuse_detected revoked : Reason

pub record Session : Type 0 where
  pub id : String
  pub user_id : String
  pub tenant_id : String
  pub refresh_token_hash : String
  pub expires_at : ℕ
  pub created_at : ℕ
  pub revoked_at : Option ℕ
  pub revocation_reason : Option Reason
  pub replaced_by_session_id : Option String
  pub ip_address : Option String
  pub user_agent : Option String

-- `SessionCreated`
pub record SessionCreated : Type 0 where
  pub user_id : String
  pub tenant_id : String
  pub refresh_token_hash : String
  pub expires_at : ℕ
  pub ip_address : Option String
  pub user_agent : Option String

-- `Session.create`: `id` is what `SessionId.generate` draws.
unfoldable pub create : SessionCreated → String → ℕ → Session
create params id now = record {
  id = id;
  user_id = params.user_id;
  tenant_id = params.tenant_id;
  refresh_token_hash = params.refresh_token_hash;
  expires_at = params.expires_at;
  created_at = now;
  revoked_at = none;
  revocation_reason = none;
  replaced_by_session_id = none;
  ip_address = params.ip_address;
  user_agent = params.user_agent;
}

unfoldable pub is_usable : Session → ℕ → Bool
is_usable s now = (if is_some s.revoked_at then false else true) && ltb now s.expires_at

unfoldable pub is_revoked : Session → Bool
is_revoked s = is_some s.revoked_at

unfoldable pub is_expired : Session → ℕ → Bool
is_expired s now = leb s.expires_at now

unfoldable pub revoke : Session → Reason → ℕ → Session
revoke s reason now =
    if is_some s.revoked_at
    then s
    else record s { revoked_at = some now; revocation_reason = some reason }

unfoldable pub rotate_to : Session → String → ℕ → Session
unfolding revoke
rotate_to s successor now =
    if is_some s.revoked_at
    then s
    else record (revoke s Reason.rotated now) { replaced_by_session_id = some successor }
