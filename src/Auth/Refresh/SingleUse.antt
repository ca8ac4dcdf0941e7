-- ===== src/Auth/Refresh/SingleUse.antt =====
-- A refresh token is good for one renewal.
use komi_saas_api.Base.{
  suc, ◌+◌, ◌*◌, String, none, some, true, map, ◌≡◌, ◌≢◌, arith, is_some, eq_iff,
}
use komi_saas_api.Base.Throws.{ok}
use komi_saas_api.Auth.Session as Session_ops
use komi_saas_api.Auth.Session.{Session}
use komi_saas_api.Auth.Store
use komi_saas_api.Auth.Store.{exchange_row, find_by_refresh_token_hash}
use komi_saas_api.Auth.World.{World, Credentials, Context, Tokens, Ports}
use komi_saas_api.Auth.Issuer
use komi_saas_api.Auth.Refresh.{execute}
use komi_saas_api.Auth.Refresh.Outcomes.{
  found, revoked_gives_none, renewal_needs, find-exchange, find-create,
}

module _ (p : Ports) (token : String) (context : Context) (w : World) where
  -- The exchanged session as the aggregate leaves it, and its successor.
  abbrev pub exchanged : Session → Session
  exchanged s = Session_ops.rotate_to s (w.ids w.drawn) (w.times (suc (suc (suc w.reads))))

  abbrev pub successor : Credentials → Session
  successor user = record {
    id = w.ids w.drawn;
    user_id = user.user_id;
    tenant_id = user.tenant_id;
    refresh_token_hash = p.hash (w.secrets w.minted);
    expires_at = w.times (suc w.reads) + p.refresh_ttl_days * 86400000;
    created_at = w.times (suc (suc w.reads));
    revoked_at = none;
    revocation_reason = none;
    replaced_by_session_id = none;
    ip_address = context.ip_address;
    user_agent = context.user_agent;
  }

  renewal_table :
      (s : Session) (user : Credentials) {t : Tokens}
      → (execute p (some token) context w).0 ≡ ok t
      → found p token context w ≡ some s
      → p.find_by_user_id s.tenant_id s.user_id ≡ some user
      → (execute p (some token) context w).1.sessions
        ≡ Store.create (successor user) (map (exchange_row (exchanged s)) w.sessions)
  unfolding execute Issuer.rotate Store.rotate
  renewal_table s user h hf hu = ground arith

  exchanged_revoked :
      (s : Session) → s.revoked_at ≡ none → is_some (exchange_row (exchanged s) s).revoked_at ≡ true
  unfolding Session_ops.rotate_to
  exchanged_revoked s h = ground (arith, eq_iff s.id s.id)

  -- After a renewal that gave tokens, the same refresh token presented again to the state it left
  -- never gives tokens.
  pub single_use :
      (again : Context) {t t' : Tokens}
      → (execute p (some token) context w).0 ≡ ok t
      → (execute p (some token) again (execute p (some token) context w).1).0 ≢ ok t'
  single_use again h =
      let (s, tenant, user, hf, live, _, _, _, hu, _) = renewal_needs p token context w h in
      revoked_gives_none p token again (execute p (some token) context w).1
        (exchange_row (exchanged s) s)
        (rw (renewal_table s user h hf hu) (
          find-create (p.hash token) (exchange_row (exchanged s) s) (successor user)
            (map (exchange_row (exchanged s)) w.sessions)
            (find-exchange (p.hash token) (exchanged s) s w.sessions hf)))
        (exchanged_revoked s live)
