-- ===== src/Auth/Issuer.antt =====
-- The issuer of sessions and tokens (src/auth/application/services/session-issuer.ts), with the
-- generator of refresh tokens and the issuer of access tokens (src/auth/infrastructure/security).
use komi_saas_api.Base.{ℕ, ◌+◌, ◌*◌, String, Option, none, some, Bool, if◌then◌else◌}
use komi_saas_api.Auth.Session as Session_ops
use komi_saas_api.Auth.Session.{Session}
use komi_saas_api.Auth.Store
use komi_saas_api.Base.Throws.{Result}
use komi_saas_api.Auth.World.{
  Credentials, Claims, Context, Tokens, Ports, Action, pure, ◌>>=◌, ◌>>◌, read_clock, draw_id, mint,
  write,
}

-- `GeneratedRefreshToken`
pub record Generated : Type 0 where
  pub plain : String
  pub hash : String

abbrev pub milliseconds_per_day : ℕ
milliseconds_per_day = 24 * 60 * 60 * 1000

module _ (p : Ports) where
  -- `Sha256RefreshTokenGenerator.generate`
  unfoldable pub generate : Action Generated
  generate = do plain ← mint; pure (record { plain = plain; hash = p.hash plain })

  -- `JwtTokenIssuer.issue`: the access token and its expiry.
  unfoldable pub issue : Claims → Action (String × ℕ)
  issue claims = do
    now ← read_clock
    pure (p.sign claims p.access_ttl_seconds, now + p.access_ttl_seconds * 1000)

  unfoldable pub build : Credentials → Context → Action (Session × Generated)
  unfolding generate Session_ops.create
  build owner context = do
    generated ← generate
    now ← read_clock
    let expires_at = now + p.refresh_ttl_days * milliseconds_per_day
    fresh ← draw_id
    created ← read_clock
    pure (
      Session_ops.create
          (record {
            user_id = owner.user_id;
            tenant_id = owner.tenant_id;
            refresh_token_hash = generated.hash;
            expires_at = expires_at;
            ip_address = context.ip_address;
            user_agent = context.user_agent;
          })
          fresh created,
      generated,
    )

  unfoldable pub issue_for : Session → Credentials → Generated → Action Tokens
  unfolding issue
  issue_for session owner generated = do
    (access_token, access_expires_at) ← issue (record {
      user_id = owner.user_id;
      tenant_id = owner.tenant_id;
      branch_id = owner.branch_id;
      rol_scope = owner.rol_scope;
      session_id = session.id;
    })
    pure (record {
      access_token = access_token;
      access_expires_at = access_expires_at;
      refresh_token = generated.plain;
      refresh_expires_at = session.expires_at;
    })

  unfoldable pub start : Credentials → Context → Action Tokens
  unfolding build issue_for
  start owner context = do
    (session, generated) ← build owner context
    write (Store.create session)
    issue_for session owner generated

  -- `this.sessions.rotate(previous, successor)`
  abbrev pub exchange : Session → Session → Action Bool
  exchange previous successor w =
      let (won, rows) = Store.rotate previous successor w.sessions in
      (Result.ok won, record w { sessions = rows })

  unfoldable pub rotate : Session → Credentials → Context → Action (Option Tokens)
  unfolding build issue_for Session_ops.rotate_to
  rotate previous owner context = do
    (successor, generated) ← build owner context
    now ← read_clock
    won ← exchange (Session_ops.rotate_to previous successor.id now) successor
    if won then (do tokens ← issue_for successor owner generated; pure (some tokens)) else pure none
