-- ===== src/Auth/Store/Permanence.antt =====
-- The life of the table while requests interleave: what no sequence of its statements undoes.
use komi_saas_api.Base.{ℕ, String, some, true, [], ◌∷◌, map, is_some, ◌≡◌, arith}
use komi_saas_api.Auth.Session.{Session, Reason}
use komi_saas_api.Auth.Store.{Table, create, rotate, revoke_all_by_user, find_by_id, exchange_row}

-- The statements that login, renewal and the alarm for reuse send, in any order and from any requests.
pub data Steps : Table → Table → Type 0 where
  done : {rows : Table} → Steps rows rows
  opened_by : {rows after : Table} (s : Session) → Steps (create s rows) after → Steps rows after
  exchanged :
      {rows after : Table} (previous successor : Session)
      → Steps (rotate previous successor rows).1 after
      → Steps rows after
  revoked :
      {rows after : Table} (user : String) (reason : Reason) (now : ℕ)
      → Steps (revoke_all_by_user user reason now rows) after
      → Steps rows after

found-create :
    (i : String) (s x : Session) (rows : Table)
    → find_by_id i rows ≡ some s
    → find_by_id i (create x rows) ≡ some s
unfolding find_by_id create
found-create i s x [] h = cc
found-create i s x (row ∷ rows) h = ground (arith, found-create i s x rows)

found-exchange :
    (i : String) (s p : Session) (rows : Table)
    → is_some s.revoked_at ≡ true
    → find_by_id i rows ≡ some s
    → find_by_id i (map (exchange_row p) rows) ≡ some s
unfolding find_by_id
found-exchange i s p [] c h = cc
found-exchange i s p (row ∷ rows) c h = ground (arith, found-exchange i s p rows)

found-rotate :
    (i : String) (s p x : Session) (rows : Table)
    → is_some s.revoked_at ≡ true
    → find_by_id i rows ≡ some s
    → find_by_id i (rotate p x rows).1 ≡ some s
unfolding rotate
found-rotate i s p x rows c h = ground (
  arith,
  found-exchange i s p rows c h,
  found-create i s x (map (exchange_row p) rows) (found-exchange i s p rows c h),
)

found-revoke_all :
    (i user : String) (reason : Reason) (now : ℕ) (s : Session) (rows : Table)
    → is_some s.revoked_at ≡ true
    → find_by_id i rows ≡ some s
    → find_by_id i (revoke_all_by_user user reason now rows) ≡ some s
unfolding find_by_id revoke_all_by_user
found-revoke_all i user reason now s [] c h = cc
found-revoke_all i user reason now s (row ∷ rows) c h =
    ground (arith, found-revoke_all i user reason now s rows)

-- However many sessions are opened, exchanged and revoked by user after it, in any order, a
-- session that is found closed stays found with the same moment, reason and successor.
pub closed_stays :
    (i : String) (s : Session) (rows after : Table)
    → Steps rows after
    → is_some s.revoked_at ≡ true
    → find_by_id i rows ≡ some s
    → find_by_id i after ≡ some s
closed_stays i s rows _ done c h = h
closed_stays i s rows after (opened_by x rest) c h =
    closed_stays i s (create x rows) after rest c (found-create i s x rows h)
closed_stays i s rows after (exchanged p x rest) c h =
    closed_stays i s (rotate p x rows).1 after rest c (found-rotate i s p x rows c h)
closed_stays i s rows after (revoked user reason now rest) c h =
    closed_stays i s (revoke_all_by_user user reason now rows) after rest c
      (found-revoke_all i user reason now s rows c h)
