-- ===== src/Auth/Tests.antt =====
-- The theorems on sessions, login, renewal and logout at concrete data.
use komi_saas_api.Base.{
  ◌<◌, none, some, true, false, [], ◌∷◌, ◌≡◌, ◌≢◌, refl, arith, str_eq, str_ne, trim, ◌⊎◌,
}
use komi_saas_api.Base.Throws.{ok, err}
use komi_saas_api.Auth.Session.{Session, Reason}
use komi_saas_api.Auth.Store
use komi_saas_api.Auth.Store.{Table, find_by_refresh_token_hash}
use komi_saas_api.Auth.Store.Permanence.{done, opened_by, exchanged, revoked, closed_stays}
use komi_saas_api.Auth.Store.Rotation.{Closes, rotate_once, live_count, live_count-rotate}
use komi_saas_api.Auth.World.{
  invalid_credentials, refresh_token_reuse_detected, Tenant, Credentials, World, Ports,
}
use komi_saas_api.Auth.Issuer
use komi_saas_api.Auth.Login
use komi_saas_api.Auth.Login.{LoginParams, to_user_response}
use komi_saas_api.Auth.Login.Order.{
  Work, unproved_login, open_login, login_needs_proof, opened, granted,
}
use komi_saas_api.Auth.Refresh
use komi_saas_api.Auth.Refresh.Outcomes.{reuse_detected, renewal_needs}
use komi_saas_api.Auth.Refresh.SingleUse.{single_use}
use komi_saas_api.Auth.Logout
use komi_saas_api.Auth.Logout.Closing.{others, logout_closes}
use komi_saas_api.Auth.Samples.{
  cafe, ana, ports_of, here, live, exchanged_at, closed, next, world_of, typed, renewed,
}

-- No user is found, and no dummy hash is kept.
abbrev strange : Ports
strange = record (ports_of cafe ana) { find_by_user_name = λ tenant name. none }

unproved_login_example :
    ((Login.execute strange (typed "secret") here (world_of [])).0
      ≡ err (invalid_credentials "cafe" "ana"))
    × Work strange
        (typed "secret")
        (world_of [])
        (Login.execute strange (typed "secret") here (world_of [])).1
unfolding trim
unproved_login_example = unproved_login strange (typed "secret") here (world_of []) refl

open_login_example : Login.execute (ports_of cafe ana) (typed "secret") here (world_of []) ≡ (
  ok (record {
    tokens = granted (ports_of cafe ana) (typed "secret") ana (world_of []);
    last_login = "";
    user = to_user_response ana;
  }),
  record (world_of []) {
    sessions = opened (ports_of cafe ana) (typed "secret") ana here (world_of []) ∷ [];
    reads = 3;
    drawn = 1;
    minted = 1;
    hashings = 1;
  },
)
open_login_example =
    open_login (ports_of cafe ana) (typed "secret") cafe ana here (world_of []) refl refl refl refl
      refl

login_needs_proof_example :
    (tenant : Tenant) × (user : Credentials) × (some cafe ≡ some tenant)
    × (some ana ≡ some user)
    × (str_eq "secret" user.password_hash ≡ true)
    × (tenant.is_active ≡ true)
    × (user.is_active ≡ true)
    × (to_user_response ana ≡ to_user_response user)
unfolding Login.execute Issuer.start
login_needs_proof_example =
    login_needs_proof (ports_of cafe ana) (typed "secret") here (world_of [])
      {r = record {
        tokens = granted (ports_of cafe ana) (typed "secret") ana (world_of []);
        last_login = "";
        user = to_user_response ana;
      }}
      refl

abbrev stolen : World
stolen = world_of (exchanged_at 10000 ∷ next ∷ [])

reuse_detected_example :
    ((Refresh.execute (ports_of cafe ana) (some "token") here stolen).0
      ≡ err (refresh_token_reuse_detected "u1"))
    × Closes "u1" Reason.reuse_detected 20001 stolen.sessions
        (Refresh.execute (ports_of cafe ana) (some "token") here stolen).1.sessions
    × ((Refresh.execute (ports_of cafe ana) (some "token") here stolen).1 ≡ record stolen {
      sessions = (Refresh.execute (ports_of cafe ana) (some "token") here stolen).1.sessions;
      reads = 2;
    })
unfolding find_by_refresh_token_hash
reuse_detected_example =
    reuse_detected (ports_of cafe ana) "token" here stolen (exchanged_at 10000) 10000 refl refl refl
      (omega arith)

renewal_needs_example :
    (s : Session) × (tenant : Tenant) × (user : Credentials) × (some live ≡ some s)
    × (s.revoked_at ≡ none)
    × (20000 < s.expires_at)
    × (some cafe ≡ some tenant)
    × (tenant.is_active ≡ true)
    × (some ana ≡ some user)
    × (user.is_active ≡ true)
unfolding Refresh.execute Issuer.rotate Store.rotate find_by_refresh_token_hash
renewal_needs_example =
    renewal_needs (ports_of cafe ana) "token" here (world_of (live ∷ next ∷ [])) {t = renewed} refl

single_use_example :
    (Refresh.execute
      (ports_of cafe ana)
      (some "token")
      here
      (Refresh.execute (ports_of cafe ana) (some "token") here (world_of (live ∷ next ∷ []))).1).0
    ≢ ok renewed
unfolding Refresh.execute Issuer.rotate Store.rotate find_by_refresh_token_hash
single_use_example =
    single_use (ports_of cafe ana) "token" here (world_of (live ∷ next ∷ [])) here {t = renewed}
      refl

rotate_once_example :
    Store.rotate (exchanged_at 7) next (Store.rotate (exchanged_at 6) next (live ∷ [])).1
    ≡ (false, (Store.rotate (exchanged_at 6) next (live ∷ [])).1)
rotate_once_example =
    rotate_once (exchanged_at 6) (exchanged_at 7) next next (live ∷ []) refl (str_ne "s2" "s1" refl)
      refl

live_count-rotate_example :
    live_count (Store.rotate (exchanged_at 6) next (live ∷ [])).1 ≡ live_count (live ∷ [])
live_count-rotate_example = live_count-rotate (exchanged_at 6) next (live ∷ []) (tt, tt) refl refl

abbrev left : Table
left = (Logout.execute (ports_of cafe ana) (some "token") (world_of (live ∷ next ∷ []))).1.sessions

logout_closes_example :
    (((live.revoked_at ≡ none)
        × (find_by_refresh_token_hash "token" left
            ≡ some
                (record live { revoked_at = some 20000; revocation_reason = some Reason.logout })))
      ⊎ ((live.revoked_at ≢ none) × (find_by_refresh_token_hash "token" left ≡ some live)))
    × (others "s1" left ≡ others "s1" (live ∷ next ∷ []))
unfolding find_by_refresh_token_hash
logout_closes_example =
    logout_closes (ports_of cafe ana) "token" (world_of (live ∷ next ∷ [])) live refl

closed_stays_example :
    Store.find_by_id "s1" (
      Store.revoke_all_by_user "u1" Reason.revoked 9
        (Store.rotate (exchanged_at 6) next (Store.create next (closed ∷ []))).1)
    ≡ some closed
unfolding Store.find_by_id
closed_stays_example =
    closed_stays "s1" closed (closed ∷ [])
      (Store.revoke_all_by_user "u1" Reason.revoked 9
        (Store.rotate (exchanged_at 6) next (Store.create next (closed ∷ []))).1)
      (opened_by next (exchanged (exchanged_at 6) next (revoked "u1" Reason.revoked 9 done))) refl
      refl
