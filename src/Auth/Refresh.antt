-- ===== src/Auth/Refresh.antt =====
-- Renewal (src/auth/application/use-cases/refresh/refresh-session.use-case.ts).
pub mod Outcomes
pub mod SingleUse
use komi_saas_api.Base.{
  ℕ, ◌+◌, String, Option, none, some, Bool, true, false, not, ltb, or_else, if◌then◌else◌,
}
use komi_saas_api.Auth.Session as Session_ops
use komi_saas_api.Auth.Session.{Session, Reason}
use komi_saas_api.Auth.Store
use komi_saas_api.Auth.World.{
  AuthError, inactive_tenant, invalid_refresh_token, expired_refresh_token,
  refresh_token_reuse_detected, World, Tenant, Credentials, Context, Tokens, Ports, Action, pure,
  raise, gets, or_raise, ◌>>=◌, ◌>>◌, raise_if, read_clock, write,
}
use komi_saas_api.Auth.Issuer

-- `ROTATION_GRACE_MS`
abbrev pub rotation_grace_ms : ℕ
rotation_grace_ms = 10000

-- `wasJustRotated`. The difference of two dates is signed in the source, so the comparison is
-- written with the grace on the other side.
unfoldable pub was_just_rotated : Session → ℕ → Bool
was_just_rotated s now = elim s.revoked_at [
  | none ↦ false
  | some revoked_at ↦ ltb now (revoked_at + rotation_grace_ms)
]

abbrev pub is_rotated : Option Reason → Bool
is_rotated (some Reason.rotated) = true
is_rotated _ = false

abbrev pub revoke_all : String → Reason → Action (Unit {0})
revoke_all user reason = do now ← read_clock; write (Store.revoke_all_by_user user reason now)

-- The body of `if (session.isRevoked())`, which always throws.
unfoldable pub refuse_revoked : Session → Action (Unit {0})
unfolding was_just_rotated
refuse_revoked s = do
  raise_if (not (is_rotated s.revocation_reason)) invalid_refresh_token
  now ← read_clock
  raise_if (was_just_rotated s now) invalid_refresh_token
  revoke_all s.user_id Reason.reuse_detected
  raise (refresh_token_reuse_detected s.user_id)

-- `tenant === null || !tenant.isActive`
abbrev pub closed_tenant : Option Tenant → Bool
closed_tenant none = true
closed_tenant (some t) = not t.is_active

abbrev pub slug_or : Option Tenant → String → String
slug_or none i = i
slug_or (some t) _ = t.slug

-- `user === null || !user.isActive`, and the user otherwise.
abbrev pub open_user : Option Credentials → Option Credentials
open_user none = none
open_user (some u) = if u.is_active then some u else none

module _ (p : Ports) where
  abbrev pub require_tenant : Session → Action (Unit {0})
  require_tenant s =
      if closed_tenant (p.find_tenant_by_id s.tenant_id)
      then (do
        revoke_all s.user_id Reason.revoked
        raise (inactive_tenant (slug_or (p.find_tenant_by_id s.tenant_id) s.tenant_id)))
      else pure tt

  abbrev pub user_or_revoke : Session → Option Credentials → Action Credentials
  user_or_revoke s none = do revoke_all s.user_id Reason.revoked; raise invalid_refresh_token
  user_or_revoke s (some u) = pure u

  unfoldable pub execute : Option String → Context → Action Tokens
  unfolding refuse_revoked Session_ops.is_revoked Session_ops.is_expired
  execute refresh_token context = do
    token ← or_raise refresh_token invalid_refresh_token
    let hash = p.hash token
    found ← gets (λ w. Store.find_by_refresh_token_hash hash w.sessions)
    session ← or_raise found invalid_refresh_token
    if Session_ops.is_revoked session then refuse_revoked session else pure tt
    now ← read_clock
    raise_if (Session_ops.is_expired session now) expired_refresh_token
    require_tenant session
    user ← user_or_revoke session (open_user (p.find_by_user_id session.tenant_id session.user_id))
    tokens ← Issuer.rotate p session user context
    or_raise tokens invalid_refresh_token
