-- ===== src/Auth/Store.antt =====
-- The session table and its repository
-- (src/auth/infrastructure/persistence/repositories/session.repository.ts). A row holds the fields of
-- the aggregate. PostgreSQL runs one statement on a row at a time, so a statement is one function on
-- the table; `rotate` runs in one transaction.
pub mod Rotation
pub mod Permanence
use komi_saas_api.Base.{
  ℕ, String, Option, none, some, Bool, true, false, List, [], ◌∷◌, ◌++◌, map, find, str_eq, is_some,
  not, ◌&&◌, ◌==◌, if◌then◌else◌, length, filter,
}
use komi_saas_api.Auth.Session.{Session, Reason}

abbrev pub Table : Type 0
Table = List Session

unfoldable pub create : Session → Table → Table
create s rows = rows ++ (s ∷ [])

abbrev pub has_id : String → Session → Bool
has_id i row = str_eq row.id i

-- The SET of `update`: every column but the id.
abbrev pub overwrite : Session → Session → Session
overwrite s row = if has_id s.id row then s else row

unfoldable pub update : Session → Table → Table
update s rows = map (overwrite s) rows

unfoldable pub find_by_refresh_token_hash : String → Table → Option Session
find_by_refresh_token_hash hash rows = find (λ row. str_eq row.refresh_token_hash hash) rows

unfoldable pub find_by_id : String → Table → Option Session
find_by_id i rows = find (has_id i) rows

-- `{ userId, revokedAt: IsNull() }`
abbrev pub live_of : String → Session → Bool
live_of user row = str_eq row.user_id user && not (is_some row.revoked_at)

abbrev pub close_row : String → Reason → ℕ → Session → Session
close_row user reason now row =
    if live_of user row
    then record row { revoked_at = some now; revocation_reason = some reason }
    else row

unfoldable pub revoke_all_by_user : String → Reason → ℕ → Table → Table
revoke_all_by_user user reason now rows = map (close_row user reason now) rows

-- `{ id: canjeada.id, revokedAt: IsNull() }`
abbrev pub exchangeable : String → Session → Bool
exchangeable i row = has_id i row && not (is_some row.revoked_at)

abbrev pub exchange_row : Session → Session → Session
exchange_row previous row =
    if exchangeable previous.id row
    then record row {
      revoked_at = previous.revoked_at;
      revocation_reason = previous.revocation_reason;
      replaced_by_session_id = previous.replaced_by_session_id;
    }
    else row

-- `result.affected`
unfoldable pub affected : String → Table → ℕ
affected i rows = length (filter (exchangeable i) rows)

-- The transaction: whether this request won, and the table after it.
unfoldable pub rotate : Session → Session → Table → Bool × Table
unfolding affected create
rotate previous successor rows =
    let updated = map (exchange_row previous) rows in
    if affected previous.id rows == 1 then (true, create successor updated) else (false, updated)
