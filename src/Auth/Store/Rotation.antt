-- ===== src/Auth/Store/Rotation.antt =====
-- The race on one refresh token: what `rotate` leaves in the table.
use komi_saas_api.Base.{
  ℕ, ◌+◌, ◌≤◌, String, none, some, Bool, true, false, [], ◌∷◌, map, filter, length, is_some, not,
  str_eq, eq_iff, ◌≡◌, ◌≢◌, refl, arith, Bool-cases, inl, inr, All, ◌⊎◌,
}
use komi_saas_api.Auth.Session.{Session, Reason}
use komi_saas_api.Auth.Store.{
  Table, rotate, affected, exchange_row, create, close_row, live_of, revoke_all_by_user,
}

-- No row is left that an exchange of this id could take.
affected-exchange :
    (p : Session) (rows : Table)
    → is_some p.revoked_at ≡ true
    → affected p.id (map (exchange_row p) rows) ≡ 0
unfolding affected
affected-exchange p [] h = refl
affected-exchange p (row ∷ rows) h = ground (arith, affected-exchange p rows h)

affected-create :
    (i : String) (s : Session) (rows : Table)
    → s.id ≢ i
    → affected i (create s rows) ≡ affected i rows
unfolding affected create
affected-create i s [] h = ground (arith, eq_iff s.id i)
affected-create i s (row ∷ rows) h = ground (arith, affected-create i s rows h)

exchange_none :
    (p : Session) (rows : Table) → affected p.id rows ≡ 0 → map (exchange_row p) rows ≡ rows
unfolding affected
exchange_none p [] h = refl
exchange_none p (row ∷ rows) h = ground (arith, exchange_none p rows)

rotate-affected :
    (p s : Session) (rows : Table)
    → is_some p.revoked_at ≡ true
    → s.id ≢ p.id
    → affected p.id (rotate p s rows).1 ≡ 0
unfolding rotate
rotate-affected p s rows h ne =
    ground
      (arith, affected-exchange p rows h, affected-create p.id s (map (exchange_row p) rows) ne)

rotate-none :
    (p s : Session) (rows : Table) → affected p.id rows ≡ 0 → rotate p s rows ≡ (false, rows)
unfolding rotate
rotate-none p s rows h = ground (arith, exchange_none p rows h)

-- After an exchange of a session, won or lost, each other exchange of the same session loses and
-- leaves the table as it is, where the exchanged session is revoked and its successor has another
-- id.
pub rotate_once :
    (p p' s s' : Session) (rows : Table)
    → is_some p.revoked_at ≡ true
    → s.id ≢ p.id
    → p'.id ≡ p.id
    → rotate p' s' (rotate p s rows).1 ≡ (false, (rotate p s rows).1)
rotate_once p p' s s' rows h ne same =
    rotate-none p' s' (rotate p s rows).1 (rw same (rotate-affected p s rows h ne))

-- How many rows are not revoked.
abbrev pub is_live : Session → Bool
is_live row = not (is_some row.revoked_at)

unfoldable pub live_count : Table → ℕ
live_count rows = length (filter is_live rows)

live_count-exchange :
    (p : Session) (rows : Table)
    → is_some p.revoked_at ≡ true
    → live_count (map (exchange_row p) rows) + affected p.id rows ≡ live_count rows
unfolding live_count affected
live_count-exchange p [] h = refl
live_count-exchange p (row ∷ rows) h = ground (arith, live_count-exchange p rows h)

live_count-create :
    (s : Session) (rows : Table)
    → s.revoked_at ≡ none
    → live_count (create s rows) ≡ live_count rows + 1
unfolding live_count create
live_count-create s [] h = ground arith
live_count-create s (row ∷ rows) h = ground (arith, live_count-create s rows h)

-- The ids of a table, which are its primary key, are distinct.
abbrev pub UniqueIds : Table → Type 0
UniqueIds [] = Unit
UniqueIds (row ∷ rows) = All (λ other. other.id ≢ row.id) rows × UniqueIds rows

affected_absent :
    (i : String) (rows : Table) → All (λ other. other.id ≢ i) rows → affected i rows ≡ 0
unfolding affected
affected_absent i [] h = refl
affected_absent i (row ∷ rows) h = ground (arith, eq_iff row.id i, affected_absent i rows h.1)

pub affected-le : (i : String) (rows : Table) → UniqueIds rows → affected i rows ≤ 1
unfolding affected
affected-le i [] h = omega arith
affected-le i (row ∷ rows) h = elim (Bool-cases (str_eq row.id i)) [
  | inl here ↦
      let absent : affected i rows ≡ 0 =
        affected_absent i rows (rw ((eq_iff row.id i).0 here) at h.0) in
      ground (arith, absent)
  | inr there ↦ ground (arith, affected-le i rows h.1)
]

-- An exchange leaves as many live sessions as there were, where ids are distinct, the exchanged
-- session is revoked and the successor is live.
pub live_count-rotate :
    (p s : Session) (rows : Table)
    → UniqueIds rows
    → is_some p.revoked_at ≡ true
    → s.revoked_at ≡ none
    → live_count (rotate p s rows).1 ≡ live_count rows
unfolding rotate
live_count-rotate p s rows u h live = ground (
  arith,
  affected-le p.id rows u,
  live_count-exchange p rows h,
  live_count-create s (map (exchange_row p) rows) live,
)

-- What the mass revocation does to one row, seen from outside: a live row of the user gets the
-- moment and the reason and keeps all else; a row of another user, or one closed before, stays.
abbrev pub ClosesRow : String → Reason → ℕ → Session → Session → Type 0
ClosesRow user reason now r t =
    ((r.user_id ≡ user)
      × (r.revoked_at ≡ none)
      × (t ≡ record r { revoked_at = some now; revocation_reason = some reason }))
    ⊎ (((r.user_id ≢ user) ⊎ (r.revoked_at ≢ none)) × (t ≡ r))

abbrev pub Closes : String → Reason → ℕ → Table → Table → Type 0
Closes user reason now [] [] = Unit
Closes user reason now (r ∷ rs) (t ∷ ts) =
    ClosesRow user reason now r t × Closes user reason now rs ts
Closes _ _ _ _ _ = ⊥

close_row-ClosesRow :
    (user : String) (reason : Reason) (now : ℕ) (row : Session)
    → ClosesRow user reason now row (close_row user reason now row)
close_row-ClosesRow user reason now row = elim (Bool-cases (live_of user row)) [
  | inl live ↦ inl (ground (arith, eq_iff row.user_id user))
  | inr other ↦ elim (Bool-cases (str_eq row.user_id user)) [
    | inl mine ↦ inr (inr (ground arith), ground arith)
    | inr not_mine ↦ inr (inl (ground (arith, eq_iff row.user_id user)), ground arith)
  ]
]

-- Revoking the sessions of a user closes the live ones with the moment and reason given and
-- changes no other row.
pub revoke_all_by_user-Closes :
    (user : String) (reason : Reason) (now : ℕ) (rows : Table)
    → Closes user reason now rows (revoke_all_by_user user reason now rows)
unfolding revoke_all_by_user
revoke_all_by_user-Closes user reason now [] = tt
revoke_all_by_user-Closes user reason now (row ∷ rows) =
    (close_row-ClosesRow user reason now row, revoke_all_by_user-Closes user reason now rows)
