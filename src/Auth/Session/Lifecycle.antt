-- ===== src/Auth/Session/Lifecycle.antt =====
-- What the operations of a session keep and change.
use komi_saas_api.Base.{
  ℕ, String, none, some, true, false, ◌≡◌, refl, ◌⊎◌, inl, is_some, arith, ◌↔◌,
}
use komi_saas_api.Auth.Session.{
  Reason, Session, SessionCreated, create, is_usable, is_revoked, is_expired, revoke, rotate_to,
}

-- A revocation has its moment and its reason together, and only a rotated session has a successor.
pub record IsCoherent (s : Session) : Type 0 where
  pub reason_iff_moment : is_some s.revocation_reason ≡ is_some s.revoked_at
  pub successor_needs_rotation :
      (s.replaced_by_session_id ≡ none) ⊎ (s.revocation_reason ≡ some Reason.rotated)

-- A closed session is never changed again: neither its reason nor its successor.
pub revoke_closed : (s : Session) (r : Reason) (now : ℕ) → is_revoked s ≡ true → revoke s r now ≡ s
unfolding is_revoked revoke
revoke_closed s r now h = ground arith

pub rotate_to_closed :
    (s : Session) (t : String) (now : ℕ) → is_revoked s ≡ true → rotate_to s t now ≡ s
unfolding is_revoked rotate_to
rotate_to_closed s t now h = ground arith

pub create-IsCoherent : (p : SessionCreated) (i : String) (now : ℕ) → IsCoherent (create p i now)
unfolding create
create-IsCoherent p i now = record { reason_iff_moment = refl; successor_needs_rotation = inl refl }

pub revoke-IsCoherent :
    {s : Session} (r : Reason) (now : ℕ) → IsCoherent s → IsCoherent (revoke s r now)
unfolding revoke
revoke-IsCoherent {s} r now h = ground arith

-- Rotating a session keeps that it has a revocation reason exactly when it has a moment, and a
-- successor only when it was rotated.
pub rotate_to-IsCoherent :
    {s : Session} (t : String) (now : ℕ) → IsCoherent s → IsCoherent (rotate_to s t now)
unfolding rotate_to revoke
rotate_to-IsCoherent {s} t now h = ground arith

-- A session serves exactly while it is neither revoked nor expired.
pub is_usable_iff :
    (s : Session) (now : ℕ)
    → (is_usable s now ≡ true) ↔ ((is_revoked s ≡ false) × (is_expired s now ≡ false))
unfolding is_usable is_revoked is_expired
is_usable_iff s now = ground arith
