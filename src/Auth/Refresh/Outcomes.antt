-- ===== src/Auth/Refresh/Outcomes.antt =====
-- What a renewal answers and what it writes, by the state of the session it finds.
use komi_saas_api.Base.{
  ℕ, suc, ◌+◌, ◌≤◌, ◌<◌, String, Option, none, some, true, [], ◌∷◌, map, ◌≡◌, ◌≢◌, arith,
  Option-cases, inl, inr, is_some, ap, subst, sym, refl,
}
use komi_saas_api.Base.Throws.{ok, err}
use komi_saas_api.Auth.Session.{Session, Reason}
use komi_saas_api.Auth.Store
use komi_saas_api.Auth.Store.{Table, find_by_refresh_token_hash, exchange_row}
use komi_saas_api.Auth.Store.Rotation.{Closes, revoke_all_by_user-Closes}
use komi_saas_api.Auth.World.{
  invalid_refresh_token, refresh_token_reuse_detected, World, Tenant, Credentials, Context, Tokens,
  Ports,
}
use komi_saas_api.Auth.Refresh.{execute}

module _ (p : Ports) (token : String) (context : Context) (w : World) where
  abbrev pub found : Option Session
  found = find_by_refresh_token_hash (p.hash token) w.sessions

  refused_reuse :
      (s : Session) (at : ℕ)
      → found ≡ some s
      → s.revoked_at ≡ some at
      → s.revocation_reason ≡ some Reason.rotated
      → at + 10000 ≤ w.times w.reads
      → execute p (some token) context w ≡ (
        err (refresh_token_reuse_detected s.user_id),
        record w {
          sessions =
              Store.revoke_all_by_user s.user_id Reason.reuse_detected
                (w.times (suc w.reads))
                w.sessions;
          reads = suc (suc w.reads);
        },
      )
  unfolding execute
  refused_reuse s at hf hr hw late = ground arith

  -- A refresh token whose session was exchanged, presented ten seconds later or more, gives no
  -- token: each live session of its user is left revoked for reuse at that moment with all else in
  -- it as it was, every other session is as it was, and nothing else changes but that the clock
  -- was read twice.
  pub reuse_detected :
      (s : Session) (at : ℕ)
      → found ≡ some s
      → s.revoked_at ≡ some at
      → s.revocation_reason ≡ some Reason.rotated
      → at + 10000 ≤ w.times w.reads
      → ((execute p (some token) context w).0 ≡ err (refresh_token_reuse_detected s.user_id))
        × Closes s.user_id Reason.reuse_detected
            (w.times (suc w.reads))
            w.sessions
            (execute p (some token) context w).1.sessions
        × ((execute p (some token) context w).1 ≡ record w {
          sessions = (execute p (some token) context w).1.sessions;
          reads = suc (suc w.reads);
        })
  reuse_detected s at hf hr hw late =
      let e = refused_reuse s at hf hr hw late in
      (
        ap (λ r. r.0) e,
        subst
            (λ r.
              Closes s.user_id Reason.reuse_detected (w.times (suc w.reads)) w.sessions
                r.1.sessions)
            (sym e)
            (revoke_all_by_user-Closes s.user_id Reason.reuse_detected (w.times (suc w.reads))
              w.sessions),
        rw e refl,
      )

  -- Within the ten seconds the same request is refused and nothing is revoked.
  pub reuse_tolerated :
      (s : Session) (at : ℕ)
      → found ≡ some s
      → s.revoked_at ≡ some at
      → s.revocation_reason ≡ some Reason.rotated
      → w.times w.reads < at + 10000
      → execute p (some token) context w
        ≡ (err invalid_refresh_token, record w { reads = suc w.reads })
  unfolding execute
  reuse_tolerated s at hf hr hw early = ground arith

  -- A session closed for any other reason is refused, and nothing is written.
  pub closed_refused :
      (s : Session)
      → found ≡ some s
      → s.revoked_at ≢ none
      → s.revocation_reason ≢ some Reason.rotated
      → execute p (some token) context w ≡ (err invalid_refresh_token, w)
  unfolding execute
  closed_refused s hf hr hw = ground arith

  -- A session that is found revoked never gives tokens.
  pub revoked_gives_none :
      (s : Session) {t : Tokens}
      → found ≡ some s
      → is_some s.revoked_at ≡ true
      → (execute p (some token) context w).0 ≢ ok t
  unfolding execute
  revoked_gives_none s hf hr = ground arith

  -- Whoever a renewal gives tokens presented a session that was live and not expired, whose tenant
  -- and user exist and are active.
  pub renewal_needs :
      {t : Tokens}
      → (execute p (some token) context w).0 ≡ ok t
      → (s : Session) × (tenant : Tenant) × (user : Credentials) × (found ≡ some s)
        × (s.revoked_at ≡ none)
        × (w.times w.reads < s.expires_at)
        × (p.find_tenant_by_id s.tenant_id ≡ some tenant)
        × (tenant.is_active ≡ true)
        × (p.find_by_user_id s.tenant_id s.user_id ≡ some user)
        × (user.is_active ≡ true)
  unfolding execute
  renewal_needs h = elim (Option-cases found) [
    | inl missing ↦ ground arith
    | inr (s, es) ↦ elim (Option-cases (p.find_tenant_by_id s.tenant_id)) [
      | inl missing ↦ ground arith
      | inr (tenant, et) ↦ elim (Option-cases (p.find_by_user_id s.tenant_id s.user_id)) [
        | inl missing ↦ ground arith
        | inr (user, eu) ↦
            (s, tenant, user, es, ground arith, ground arith, et, ground arith, eu, ground arith)
      ]
    ]
  ]

pub find-exchange :
    (hash : String) (p s : Session) (rows : Table)
    → find_by_refresh_token_hash hash rows ≡ some s
    → find_by_refresh_token_hash hash (map (exchange_row p) rows) ≡ some (exchange_row p s)
unfolding find_by_refresh_token_hash
find-exchange hash p s [] h = cc
find-exchange hash p s (row ∷ rows) h = ground (arith, find-exchange hash p s rows)

pub find-create :
    (hash : String) (s x : Session) (rows : Table)
    → find_by_refresh_token_hash hash rows ≡ some s
    → find_by_refresh_token_hash hash (Store.create x rows) ≡ some s
unfolding find_by_refresh_token_hash Store.create
find-create hash s x [] h = cc
find-create hash s x (row ∷ rows) h = ground (arith, find-create hash s x rows)
