-- ===== src/Auth/Logout.antt =====
-- Logout (src/auth/application/use-cases/logout/logout.use-case.ts).
use komi_saas_api.Base.{ℕ, String, Option, none, some}
use komi_saas_api.Auth.Session as Session_ops
use komi_saas_api.Auth.Session.{Session, Reason}
use komi_saas_api.Auth.Store
use komi_saas_api.Auth.World.{Ports, Action, pure, gets, ◌>>=◌, ◌>>◌, read_clock, write}
pub mod Closing

module _ (p : Ports) where
  abbrev pub close : Option Session → Action (Unit {0})
  close none = pure tt
  close (some session) = do
    now ← read_clock
    write (Store.update (Session_ops.revoke session Reason.logout now))

  unfoldable pub execute : Option String → Action (Unit {0})
  execute none = pure tt
  execute (some refresh_token) = do
    found ← gets (λ w. Store.find_by_refresh_token_hash (p.hash refresh_token) w.sessions)
    close found
