-- ===== src/Auth/Logout/Closing.antt =====
-- Logging out closes the session of the token and nothing else.
use komi_saas_api.Base.{
  String, some, none, [], ◌∷◌, map, filter, not, str_eq, ◌≡◌, ◌≢◌, ◌⊎◌, inl, inr, refl, arith,
  eq_iff, Option-cases,
}
use komi_saas_api.Base.Throws.{ok}
use komi_saas_api.Auth.Session as Session_ops
use komi_saas_api.Auth.Session.{Session, Reason}
use komi_saas_api.Auth.Store
use komi_saas_api.Auth.Store.{Table, find_by_refresh_token_hash, overwrite}
use komi_saas_api.Auth.World.{World, Ports}
use komi_saas_api.Auth.Logout.{execute}

-- Rows whose ids are distinct from one another's are found again after an overwrite of the same id.
find-overwrite :
    (hash : String) (s t : Session) (rows : Table)
    → find_by_refresh_token_hash hash rows ≡ some s
    → t.id ≡ s.id
    → t.refresh_token_hash ≡ hash
    → find_by_refresh_token_hash hash (map (overwrite t) rows) ≡ some t
unfolding find_by_refresh_token_hash
find-overwrite hash s t [] h same hh = cc
find-overwrite hash s t (row ∷ rows) h same hh =
    ground
      (arith, find-overwrite hash s t rows, eq_iff row.id t.id, eq_iff t.refresh_token_hash hash)

find-hash :
    (hash : String) (s : Session) (rows : Table)
    → find_by_refresh_token_hash hash rows ≡ some s
    → s.refresh_token_hash ≡ hash
unfolding find_by_refresh_token_hash
find-hash hash s [] h = cc
find-hash hash s (row ∷ rows) h =
    ground (arith, eq_iff row.refresh_token_hash hash, find-hash hash s rows)

-- The rows but those of an id.
abbrev pub others : String → Table → Table
others i rows = filter (λ row. not (str_eq row.id i)) rows

others-overwrite :
    (i : String) (t : Session) (rows : Table)
    → t.id ≡ i
    → others i (map (overwrite t) rows) ≡ others i rows
others-overwrite i t [] same = refl
others-overwrite i t (row ∷ rows) same = ground (
  arith,
  others-overwrite i t rows same,
  eq_iff row.id t.id,
  eq_iff t.id i,
  eq_iff row.id i,
  eq_iff (overwrite t row).id i,
)

module _ (p : Ports) (token : String) (w : World) where
  -- Logging out succeeds whatever the token, also with one that leads to no session.
  pub logout_succeeds : (execute p (some token) w).0 ≡ ok tt
  unfolding execute
  logout_succeeds = ground arith

  -- The table after a logout: what the aggregate makes of the session is written over it.
  left :
      (s : Session)
      → find_by_refresh_token_hash (p.hash token) w.sessions ≡ some s
      → (execute p (some token) w).1.sessions
        ≡ map (overwrite (Session_ops.revoke s Reason.logout (w.times w.reads))) w.sessions
  unfolding execute Store.update
  left s h = ground arith

  written :
      (s t : Session)
      → find_by_refresh_token_hash (p.hash token) w.sessions ≡ some s
      → Session_ops.revoke s Reason.logout (w.times w.reads) ≡ t
      → t.id ≡ s.id
      → t.refresh_token_hash ≡ s.refresh_token_hash
      → (find_by_refresh_token_hash (p.hash token) (execute p (some token) w).1.sessions ≡ some t)
        × (others s.id (execute p (some token) w).1.sessions ≡ others s.id w.sessions)
  written s t h made same_id same_hash = (
    rw (left s h, made)
        (find-overwrite (p.hash token) s t w.sessions h same_id
          (ground (arith, find-hash (p.hash token) s w.sessions h))),
    rw (left s h, made) (others-overwrite s.id t w.sessions same_id),
  )

  -- After a logout with the token of a session, that session is found closed: for logout at that
  -- moment with all else as it was if it was live, and as it was if it was closed before; the rows
  -- of other ids are as they were.
  pub logout_closes :
      (s : Session)
      → find_by_refresh_token_hash (p.hash token) w.sessions ≡ some s
      → (((s.revoked_at ≡ none)
            × (find_by_refresh_token_hash (p.hash token) (execute p (some token) w).1.sessions
                ≡ some (record s {
                  revoked_at = some (w.times w.reads);
                  revocation_reason = some Reason.logout;
                })))
          ⊎ ((s.revoked_at ≢ none)
              × (find_by_refresh_token_hash (p.hash token) (execute p (some token) w).1.sessions
                  ≡ some s)))
        × (others s.id (execute p (some token) w).1.sessions ≡ others s.id w.sessions)
  unfolding Session_ops.revoke
  logout_closes s h = elim (Option-cases s.revoked_at) [
    | inl live ↦
        let (found, kept) =
          written s
            (record s {
              revoked_at = some (w.times w.reads);
              revocation_reason = some Reason.logout;
            })
            h (ground arith) refl refl in
        (inl (live, found), kept)
    | inr (at, closed) ↦
        let (found, kept) = written s s h (ground arith) refl refl in
        (inr (ground arith, found), kept)
  ]
