-- ===== src/Auth/JwtGuard/Access.antt =====
-- Who passes the guard, and when a closed session is turned away.
use komi_saas_api.Base.{
  ℕ, String, none, some, false, ◌≡◌, ◌≢◌, ◌⊎◌, inl, inr, refl, arith, Option-cases, eq_iff, [], ◌∷◌,
}
use komi_saas_api.Base.Throws.{ok, err, Result-cases}
use komi_saas_api.Auth.Session.{Session, Reason}
use komi_saas_api.Auth.Store.{Table, find_by_id, close_row, revoke_all_by_user}
use komi_saas_api.Auth.JwtGuard.{
  session_closed, Payload, Verified, payload, expired, rejected, AuthenticatedUser, Request,
  extract_token, to_authenticated_user, can_activate,
}

Verified-cases : (v : Verified) → ((c : Payload) × (v ≡ payload c)) ⊎ (v ≡ expired) ⊎ (v ≡ rejected)
Verified-cases (payload c) = inl (c, refl)
Verified-cases expired = inr (inl refl)
Verified-cases rejected = inr (inr refl)

module _ (lower_case : String → String) (verify_token : String → Verified) (rows : Table)
    (request : Request) where
  -- A request that passes as a user carries a verified token, which names a session that is in the
  -- table and is not revoked or was exchanged.
  passed_needs :
      {u : AuthenticatedUser}
      → can_activate lower_case verify_token false rows request ≡ ok (some u)
      → (token : String) × (c : Payload) × (s : Session) × (extract_token lower_case request
          ≡ some token)
        × (verify_token token ≡ payload c)
        × (to_authenticated_user c ≡ ok u)
        × (find_by_id u.session_id rows ≡ some s)
        × ((s.revocation_reason ≡ none) ⊎ (s.revocation_reason ≡ some Reason.rotated))
  unfolding can_activate
  passed_needs h = elim (Option-cases (extract_token lower_case request)) [
    | inl missing ↦ ground arith
    | inr (token, et) ↦ elim (Verified-cases (verify_token token)) [
      | inr refused ↦ ground arith
      | inl (c, ec) ↦ elim (Result-cases (to_authenticated_user c)) [
        | inr (e, eu) ↦ ground arith
        | inl (u, eu) ↦ elim (Option-cases (find_by_id u.session_id rows)) [
          | inl missing ↦ ground arith
          | inr (s, es) ↦ (token, c, s, et, ec, ground arith, ground arith, ground arith)
        ]
      ]
    ]
  ]

find_by_id-close :
    (i user : String) (reason : Reason) (now : ℕ) (s : Session) (rows : Table)
    → find_by_id i rows ≡ some s
    → find_by_id i (revoke_all_by_user user reason now rows) ≡ some (close_row user reason now s)
unfolding find_by_id revoke_all_by_user
find_by_id-close i user reason now s [] h = cc
find_by_id-close i user reason now s (row ∷ rows) h =
    ground (arith, find_by_id-close i user reason now s rows)

module _ (lower_case : String → String) (verify_token : String → Verified) (rows : Table)
    (request : Request) (token : String) (c : Payload) (u : AuthenticatedUser) (s : Session) where
  -- After a mass revocation for a reason other than an exchange, a request with a still valid
  -- token that names a live session of the user is turned away.
  pub revocation_is_immediate :
      (reason : Reason) (now : ℕ)
      → extract_token lower_case request ≡ some token
      → verify_token token ≡ payload c
      → to_authenticated_user c ≡ ok u
      → find_by_id u.session_id rows ≡ some s
      → s.revoked_at ≡ none
      → reason ≢ Reason.rotated
      → can_activate lower_case verify_token false
          (revoke_all_by_user s.user_id reason now rows)
          request
        ≡ err session_closed
  unfolding can_activate
  revocation_is_immediate reason now et ec eu es live ne = ground (
    arith,
    find_by_id-close u.session_id s.user_id reason now s rows es,
    eq_iff s.user_id s.user_id,
  )
