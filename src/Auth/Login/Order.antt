-- ===== src/Auth/Login/Order.antt =====
-- The order of the login's checks: what a stranger learns, and what a success rests on.
use komi_saas_api.Base.{
  suc, ◌+◌, ◌*◌, String, Option, none, some, Bool, true, false, [], ◌∷◌, ◌++◌, trim, ◌≡◌, arith,
  Option-cases, ◌&&◌, ◌||◌, is_some, subst, ap, sym, if◌then◌else◌, inl, inr,
}
use komi_saas_api.Base.Throws.{ok, err}
use komi_saas_api.Auth.Session.{Session}
use komi_saas_api.Auth.Store
use komi_saas_api.Auth.World.{
  invalid_credentials, inactive_account, inactive_tenant, World, Tenant, Credentials, Context,
  Tokens, Ports,
}
use komi_saas_api.Auth.Issuer
use komi_saas_api.Auth.Login.{
  LoginParams, LoginResult, to_user_response, verify_against_dummy, execute,
}

module _ (p : Ports) (params : LoginParams) where
  -- The texts under which the tenant and the user are looked up.
  abbrev pub slug : String
  slug = p.lower_case (trim params.tenant_slug)

  abbrev pub identifier : String
  identifier = trim params.username

  abbrev pub verified_for : Option Credentials → Bool
  verified_for none = false
  verified_for (some user) = p.verify params.password user.password_hash

  abbrev pub verified_in : Option Tenant → Bool
  verified_in none = false
  verified_in (some tenant) = verified_for (p.find_by_user_name tenant.id identifier)

  -- The identity is proved: the tenant exists, the user exists in it and the password is his.
  abbrev pub proved : Bool
  proved = verified_in (p.find_by_slug slug)

  abbrev pub user_in : Option Tenant → Option Credentials
  user_in none = none
  user_in (some tenant) = p.find_by_user_name tenant.id identifier

  -- The work of a login that is refused.
  pub data Work (w : World) : World → Type 0 where
    compared :
        is_some (user_in (p.find_by_slug slug)) || is_some w.dummy_hash ≡ true
        → Work w (record w { hashings = suc w.hashings })
    hashed :
        (hash : String)
        → user_in (p.find_by_slug slug) ≡ none
        → w.dummy_hash ≡ none
        → w.made w.attempts ≡ some hash
        → Work w (record w {
          dummy_hash = some hash;
          attempts = suc w.attempts;
          hashings = suc w.hashings;
        })
    not_hashed :
        user_in (p.find_by_slug slug) ≡ none
        → w.dummy_hash ≡ none
        → w.made w.attempts ≡ none
        → Work w (record w { attempts = suc w.attempts })

  verify_against_dummy-Work :
      (w : World) → user_in (p.find_by_slug slug) ≡ none → Work w (verify_against_dummy p w).1
  verify_against_dummy-Work w missing = elim (Option-cases w.dummy_hash) [
    | inr (kept, ek) ↦ subst (Work w) (ground arith) (compared (ground arith))
    | inl fresh ↦ elim (Option-cases (w.made w.attempts)) [
      | inl failed ↦ subst (Work w) (ground arith) (not_hashed missing fresh failed)
      | inr (hash, made) ↦ subst (Work w) (ground arith) (hashed hash missing fresh made)
    ]
  ]

  refused_stranger :
      (context : Context) (w : World)
      → user_in (p.find_by_slug slug) ≡ none
      → execute p params context w
        ≡ (err (invalid_credentials slug identifier), (verify_against_dummy p w).1)
  unfolding execute
  refused_stranger context w missing = elim (Option-cases (p.find_by_slug slug)) [
    | inl unknown ↦ ground arith
    | inr (tenant, known) ↦ ground arith
  ]

  refused_password :
      (context : Context) (w : World) (user : Credentials)
      → user_in (p.find_by_slug slug) ≡ some user
      → proved ≡ false
      → execute p params context w
        ≡ (err (invalid_credentials slug identifier), record w { hashings = suc w.hashings })
  unfolding execute
  refused_password context w user there h = elim (Option-cases (p.find_by_slug slug)) [
    | inl unknown ↦ ground arith
    | inr (tenant, known) ↦ ground arith
  ]

  -- While the tenant is unknown, the user is unknown or the password is wrong, a login gives the
  -- same exception and changes nothing but that argon2 makes one comparison. Only where no user is
  -- found and no dummy hash is kept does argon2 hash once before: the hash is then kept and
  -- compared with, or, if that run fails, none is kept and no comparison made.
  pub unproved_login :
      (context : Context) (w : World)
      → proved ≡ false
      → ((execute p params context w).0 ≡ err (invalid_credentials slug identifier))
        × Work w (execute p params context w).1
  unproved_login context w h = elim (Option-cases (user_in (p.find_by_slug slug))) [
    | inl missing ↦
        let e = refused_stranger context w missing in
        (ap (λ r. r.0) e, subst (λ r. Work w r.1) (sym e) (verify_against_dummy-Work w missing))
    | inr (user, there) ↦
        let e = refused_password context w user there h in
        (ap (λ r. r.0) e, subst (λ r. Work w r.1) (sym e) (compared (ground arith)))
  ]

  -- With the right password and a tenant or account that is not active, a login tells of the
  -- tenant first, opens no session and does one argon2 comparison.
  closed_login :
      (tenant : Tenant) (user : Credentials) (context : Context) (w : World)
      → p.find_by_slug slug ≡ some tenant
      → p.find_by_user_name tenant.id identifier ≡ some user
      → p.verify params.password user.password_hash ≡ true
      → tenant.is_active && user.is_active ≡ false
      → execute p params context w ≡ (
        err (if tenant.is_active then inactive_account identifier else inactive_tenant slug),
        record w { hashings = suc w.hashings },
      )
  unfolding execute
  closed_login tenant user context w ht hu hv h = ground arith

  -- What a proved identity gets: a new live session of that user in that tenant, which keeps only
  -- the hash of the refresh token, and tokens whose access token names that session.
  abbrev pub opened : Credentials → Context → World → Session
  opened user context w = record {
    id = w.ids w.drawn;
    user_id = user.user_id;
    tenant_id = user.tenant_id;
    refresh_token_hash = p.hash (w.secrets w.minted);
    expires_at = w.times w.reads + p.refresh_ttl_days * 86400000;
    created_at = w.times (suc w.reads);
    revoked_at = none;
    revocation_reason = none;
    replaced_by_session_id = none;
    ip_address = context.ip_address;
    user_agent = context.user_agent;
  }

  abbrev pub granted : Credentials → World → Tokens
  granted user w = record {
    access_token =
        p.sign
          (record {
            user_id = user.user_id;
            tenant_id = user.tenant_id;
            branch_id = user.branch_id;
            rol_scope = user.rol_scope;
            session_id = w.ids w.drawn;
          })
          p.access_ttl_seconds;
    access_expires_at = w.times (suc (suc w.reads)) + p.access_ttl_seconds * 1000;
    refresh_token = w.secrets w.minted;
    refresh_expires_at = w.times w.reads + p.refresh_ttl_days * 86400000;
  }

  -- A login with the right password, an active tenant and an active account adds exactly one live
  -- session with the hash of the refresh token given out, and returns tokens whose access token
  -- names that session.
  pub open_login :
      (tenant : Tenant) (user : Credentials) (context : Context) (w : World)
      → p.find_by_slug slug ≡ some tenant
      → p.find_by_user_name tenant.id identifier ≡ some user
      → p.verify params.password user.password_hash ≡ true
      → tenant.is_active ≡ true
      → user.is_active ≡ true
      → execute p params context w ≡ (
        ok (record { tokens = granted user w; last_login = ""; user = to_user_response user }),
        record w {
          sessions = w.sessions ++ (opened user context w ∷ []);
          reads = suc (suc (suc w.reads));
          drawn = suc w.drawn;
          minted = suc w.minted;
          hashings = suc w.hashings;
        },
      )
  unfolding execute Issuer.start Store.create
  open_login tenant user context w ht hu hv ha hb = ground arith

  -- Whoever a login lets in named a tenant and a user of it that exist, gave the right password,
  -- and both are active; the response describes that user.
  pub login_needs_proof :
      (context : Context) (w : World) {r : LoginResult}
      → (execute p params context w).0 ≡ ok r
      → (tenant : Tenant) × (user : Credentials) × (p.find_by_slug slug ≡ some tenant)
        × (p.find_by_user_name tenant.id identifier ≡ some user)
        × (p.verify params.password user.password_hash ≡ true)
        × (tenant.is_active ≡ true)
        × (user.is_active ≡ true)
        × (r.user ≡ to_user_response user)
  unfolding execute
  login_needs_proof context w h = elim (Option-cases (p.find_by_slug slug)) [
    | inl missing ↦ ground arith
    | inr (tenant, et) ↦ elim (Option-cases (p.find_by_user_name tenant.id identifier)) [
      | inl missing ↦ ground arith
      | inr (user, eu) ↦
          (tenant, user, et, eu, ground arith, ground arith, ground arith, ground arith)
    ]
  ]
