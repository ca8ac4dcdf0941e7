-- ===== src/Users/Account/Password.antt =====
-- Who may change a password.
use komi_saas_api.Base.{
  ℕ, String, Option, none, some, true, not, ◌&&◌, ◌≤◌, List, str_eq, utf16_length, ◌≡◌, ◌⊎◌, inl,
  inr, refl, arith, ◌≢◌, str_ne, if◌then◌else◌, Bool-cases, eq_iff, find, subst, sym,
}
use komi_saas_api.Base.Throws.{ok, throw_if, bind-ok}
use komi_saas_api.Users.Failure.{Platform, unauthorized_password_change}
use komi_saas_api.Users.Values.{
  RolScope, any_char, is_upper, is_lower, is_digit, create_scope, create_plain_password, from_hash,
}
use komi_saas_api.Users.User as User_ops
use komi_saas_api.Users.User.{User}
use komi_saas_api.Users.Table as Table
use komi_saas_api.Users.Table.{UserRow, same_key}
use komi_saas_api.Users.Account.Stored.{PasswordSet, others, password_stored}
use komi_saas_api.Users.Requests.{Ports, the_user}
use komi_saas_api.Users.Account.{change_user_password, ensure_current_password, is_administrative}

abbrev pub Strong : String → Type 0
Strong raw =
    (12 ≤ utf16_length raw)
    × (any_char is_upper raw ≡ true)
    × (any_char is_lower raw ≡ true)
    × (any_char is_digit raw ≡ true)

create_plain_password-Strong :
    (raw plain : String) → create_plain_password raw ≡ ok plain → Strong raw × (plain ≡ raw)
unfolding create_plain_password
create_plain_password-Strong raw plain e =
    ((ground arith, ground arith, ground arith, ground arith), ground arith)

administrative_lem :
    (platform : Platform) (text : String) (scope : RolScope)
    → create_scope platform text ≡ ok scope
    → is_administrative scope ≡ true
    → create_scope platform text ≡ ok RolScope.administrative
administrative_lem platform text RolScope.administrative e h = e
administrative_lem platform text RolScope.operational e h = absurd (ground arith)

from_hash_lem : (hash hashed : String) → from_hash hash ≡ ok hashed → hashed ≡ hash
unfolding from_hash
from_hash_lem hash hashed e = ground arith

change_password_lem :
    (password : String) (now : ℕ) (user user' : User)
    → User_ops.change_password password now user ≡ ok user'
    → (user.is_active ≡ true) × (user' ≡ record user { password = password; updated_at = now })
unfolding User_ops.change_password
change_password_lem password now user user' e = (ground arith, ground arith)

module _ (platform : Platform) (ports : Ports) where
  -- Whose request it may be: the user's own, with the current password, or an administrator's.
  abbrev pub MayChange : String → String → String → Option String → User → Type 0
  MayChange authenticated target rol_scope current user =
      ((authenticated ≡ target)
        × (raw : String) × (current ≡ some raw)
        × (ports.verify raw user.password ≡ true))
      ⊎ ((authenticated ≢ target) × (create_scope platform rol_scope ≡ ok RolScope.administrative))

  ensured :
      (current : Option String) (current_hash : String) {u : Unit {0}}
      → ensure_current_password platform ports current current_hash ≡ ok u
      → (raw : String) × (current ≡ some raw) × (ports.verify raw current_hash ≡ true)
  unfolding create_plain_password
  ensured none current_hash e = absurd (ground arith)
  ensured (some raw) current_hash e = (raw, refl, ground arith)

  may_change :
      (authenticated target rol_scope : String) (current : Option String) (user : User)
      (scope : RolScope) {u v : Unit {0}}
      → create_scope platform rol_scope ≡ ok scope
      → throw_if
          (not (str_eq authenticated target) && not (is_administrative scope))
          unauthorized_password_change
        ≡ ok u
      → (if str_eq authenticated target
          then ensure_current_password platform ports current user.password
          else ok tt)
        ≡ ok v
      → MayChange authenticated target rol_scope current user
  may_change authenticated target rol_scope current user scope es allowed proved =
      elim (Bool-cases (str_eq authenticated target)) [
        | inl own ↦
            let (raw, given, right) = ensured current user.password {u = tt} (ground arith) in
            inl (ground (arith, eq_iff authenticated target), raw, given, right)
        | inr other ↦ inr (
          str_ne authenticated target other,
          administrative_lem platform rol_scope scope es (ground arith),
        )
      ]

  -- What a change has passed, and what the aggregate hands to the repository.
  pub change_passes :
      (tenant authenticated rol_scope target : String) (current : Option String) (new : String)
      (now : ℕ) (rows rows' : List UserRow)
      → change_user_password platform ports tenant authenticated rol_scope target current new now
          rows
        ≡ ok rows'
      → (user : User) × (the_user platform tenant target now rows ≡ ok user)
        × (user.is_active ≡ true)
        × MayChange authenticated target rol_scope current user
        × Strong new
        × (rows'
            ≡ Table.update tenant
                (record user { password = ports.hash new; updated_at = now })
                now
                rows)
  unfolding change_user_password
  change_passes tenant authenticated rol_scope target current new now rows rows' e =
      let (user, eu, e1) = bind-ok e in
      let (scope, es, e2) = bind-ok e1 in
      let (_, allowed, e3) = bind-ok e2 in
      let (_, proved, e4) = bind-ok e3 in
      let (plain, ep, e5) = bind-ok e4 in
      let (hashed, eh, e6) = bind-ok e5 in
      let (user', ec, e7) = bind-ok e6 in
      let (strong, same) = create_plain_password-Strong new plain ep in
      let right = may_change authenticated target rol_scope current user scope es allowed proved in
      let hash_kept = from_hash_lem (ports.hash plain) hashed eh in
      let (active, written) = change_password_lem hashed now user user' ec in
      (user, eu, active, right, strong, ground arith)

  -- A password that is changed is that of an active user of the tenant, on a request of that user
  -- with the current password or of someone else whose role is administrative; the new one has
  -- twelve characters or more, with a capital, a small letter and a digit, and in the row found
  -- for the user its hash and the moment are new; the branch, the scope, the user name, the
  -- e-mail, the sex and the telephone are what their value objects read in that row, all else in
  -- it is as it was, and so are the rows of other keys.
  pub password_changed_by_right :
      (tenant authenticated rol_scope target : String) (current : Option String) (new : String)
      (now : ℕ) (rows rows' : List UserRow)
      → change_user_password platform ports tenant authenticated rol_scope target current new now
          rows
        ≡ ok rows'
      → (user : User) × (the_user platform tenant target now rows ≡ ok user)
        × (user.is_active ≡ true)
        × MayChange authenticated target rol_scope current user
        × Strong new
        × (old row : UserRow) × (find (same_key tenant target) rows ≡ some old)
        × (find (same_key tenant target) rows' ≡ some row)
        × PasswordSet platform (ports.hash new) now old row
        × (others tenant target rows' ≡ others tenant target rows)
  password_changed_by_right tenant authenticated rol_scope target current new now rows rows' e =
      let (user, eu, active, right, strong, same) =
        change_passes tenant authenticated rol_scope target current new now rows rows' e in
      let (old, row, there, left, set, kept) =
        password_stored platform tenant target (ports.hash new) now rows user eu in
      (
        user,
        eu,
        active,
        right,
        strong,
        old,
        row,
        there,
        subst (λ t. find (same_key tenant target) t ≡ some row) (sym same) left,
        set,
        subst (λ t. others tenant target t ≡ others tenant target rows) (sym same) kept,
      )
