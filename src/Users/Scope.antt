-- ===== src/Users/Scope.antt =====
-- A user stands in a branch or over all of them, as the scope of the role says: the constraint
-- ck_users_branch_matches_scope of public/db/01-init.sql, from the code's side.
use komi_saas_api.Base.{
  ℕ, String, Option, none, some, Bool, true, false, not, List, [], ◌∷◌, ◌++◌, find, is_some,
  is_empty, if◌then◌else◌, ◌≡◌, refl, arith, All, All-append, Bool-cases, Option-cases, inl, inr,
  ◌&&◌,
}
use komi_saas_api.Base.Throws.{Result, ok, err, ◌>>=◌, bind-ok}
use komi_saas_api.Users.Failure.{UserError, Platform, user_not_found}
use komi_saas_api.Users.Values.{
  RolScope, scope_text, create_scope, create_id, create_user_name, create_email, from_hash,
  birth_date_of, create_sex, create_phone,
}
use komi_saas_api.Users.User as User_ops
use komi_saas_api.Users.User.{
  User, UserData, UserCreated, UpdateParams, ensure_branch_matches_rol_scope,
}
use komi_saas_api.Users.Table as Table
use komi_saas_api.Users.Table.{
  UserRow, same_key, create_given, from_primitives, search_aggregate_by_id, to_primitives, written,
  save,
}
use komi_saas_api.Users.Requests.{
  Ports, CreateUserParams, the_user, or_throw, if_given, create_user, reassign_user,
  toggle_user_status,
}
use komi_saas_api.Users.Account.{UpdateUserParams, update_user, change_user_password}
pub mod Steps

abbrev pub branch_fits : RolScope → Option String → Bool
branch_fits RolScope.administrative branch = not (is_some branch)
branch_fits RolScope.operational none = false
branch_fits RolScope.operational (some branch) = not (is_empty branch)

abbrev pub ScopeFits : UserRow → Type 0
ScopeFits row =
    (scope : RolScope) × (row.rol_scope ≡ scope_text scope)
    × (branch_fits scope row.branch_id ≡ true)

abbrev pub UserFits : User → Type 0
UserFits user = branch_fits user.rol_scope user.branch_id ≡ true

pub branch_given :
    (platform : Platform) (given branch : Option String)
    → create_given (create_id platform) given ≡ ok branch
    → (given ≡ none → branch ≡ none)
      × ((b : String) → given ≡ some b → is_empty b ≡ false → branch ≡ some b)
unfolding create_id create_given
branch_given platform none branch e = ((λ h. ground arith), λ b h n. absurd (ground arith))
branch_given platform (some given) branch e = ((λ h. absurd (ground arith)), λ b h n. ground arith)

scope_given :
    (platform : Platform) (s : RolScope)
    → platform.upper_case "ADMINISTRATIVE" ≡ "ADMINISTRATIVE"
    → platform.upper_case "OPERATIONAL" ≡ "OPERATIONAL"
    → create_scope platform (scope_text s) ≡ ok s
unfolding create_scope
scope_given platform RolScope.administrative a o = rw a refl
scope_given platform RolScope.operational a o = rw o refl

still_fits :
    (scope : RolScope) (given branch : Option String)
    → branch_fits scope given ≡ true
    → (given ≡ none → branch ≡ none)
    → ((b : String) → given ≡ some b → is_empty b ≡ false → branch ≡ some b)
    → branch_fits scope branch ≡ true
still_fits RolScope.administrative none branch h n s = rw (n refl) refl
still_fits RolScope.administrative (some b) branch h n s = absurd (ground arith)
still_fits RolScope.operational none branch h n s = absurd (ground arith)
still_fits RolScope.operational (some b) branch h n s =
    let kept = s b refl (ground arith) in rw kept h

module _ (platform : Platform)
    (administrative_upper : platform.upper_case "ADMINISTRATIVE" ≡ "ADMINISTRATIVE")
    (operational_upper : platform.upper_case "OPERATIONAL" ≡ "OPERATIONAL") where
  aggregate_fits :
      (today : ℕ) (row : UserRow) (user : User)
      → from_primitives platform today row ≡ ok user
      → ScopeFits row
      → UserFits user
  unfolding from_primitives
  aggregate_fits today row user e (s, text, fits) =
      let (id, _, e1) = bind-ok {r = create_id platform row.id} e in
      let (tenant_id, _, e2) = bind-ok {r = create_id platform row.tenant_id} e1 in
      let (branch_id, eb, e3) = bind-ok {r = create_given (create_id platform) row.branch_id} e2 in
      let (rol_id, _, e4) = bind-ok {r = create_id platform row.rol_id} e3 in
      let (rol_scope, es, e5) = bind-ok {r = create_scope platform row.rol_scope} e4 in
      let (user_name, _, e6) = bind-ok {r = create_user_name row.user_name} e5 in
      let (email, _, e7) = bind-ok {r = create_given (create_email platform) row.email} e6 in
      let (password, _, e8) = bind-ok {r = from_hash row.password} e7 in
      let (age, _, e9) = bind-ok {r = birth_date_of today row.age} e8 in
      let (sex, _, e10) = bind-ok {r = create_sex platform row.sex} e9 in
      let (phone, _, e11) = bind-ok {r = create_phone row.phone} e10 in
      let known = scope_given platform s administrative_upper operational_upper in
      let same : rol_scope ≡ s = ground arith in
      let (gone, kept) = branch_given platform row.branch_id branch_id eb in
      let good = still_fits s row.branch_id branch_id fits gone kept in ground arith

  find-ScopeFits :
      (tenant id : String) (rows : List UserRow) (row : UserRow)
      → All ScopeFits rows
      → find (same_key tenant id) rows ≡ some row
      → ScopeFits row
  find-ScopeFits tenant id [] row h e = absurd (ground arith)
  find-ScopeFits tenant id (r ∷ rows) row h e = elim (Bool-cases (same_key tenant id r)) [
    | inl here ↦ let same : row ≡ r = ground arith in rw same h.0
    | inr other ↦ find-ScopeFits tenant id rows row h.1 (ground arith)
  ]

  found_fits :
      (tenant id : String) (missing : UserError) (now : ℕ) (rows : List UserRow)
      (found : Option User)
      → search_aggregate_by_id platform tenant id now rows ≡ ok found
      → (user : User) → or_throw missing found ≡ ok user
      → All ScopeFits rows
      → UserFits user
  unfolding search_aggregate_by_id or_throw
  found_fits tenant id missing now rows found ef user e h =
      elim (Option-cases (find (same_key tenant id) rows)) [
        | inl gone ↦ absurd (ground arith)
        | inr (row, there) ↦
            aggregate_fits now row user (ground arith) (find-ScopeFits tenant id rows row h there)
      ]

  pub the_user-UserFits :
      (tenant id : String) (now : ℕ) (rows : List UserRow) (user : User)
      → the_user platform tenant id now rows ≡ ok user
      → All ScopeFits rows
      → UserFits user
  unfolding the_user
  the_user-UserFits tenant id now rows user e h =
      let (tenant_id, _, e1) = bind-ok {r = create_id platform tenant} e in
      let (user_id, _, e2) = bind-ok {r = create_id platform id} e1 in
      let (found, ef, e3) = bind-ok e2 in
      found_fits tenant_id user_id (user_not_found id) now rows found ef user e3 h

pub update-ScopeFits :
    (tenant : String) (user : User) (now : ℕ) (rows : List UserRow)
    → UserFits user
    → All ScopeFits rows
    → All ScopeFits (Table.update tenant user now rows)
unfolding Table.update to_primitives
update-ScopeFits tenant user now [] fits h = tt
update-ScopeFits tenant user now (row ∷ rows) fits h =
    let rest = update-ScopeFits tenant user now rows fits h.1 in
    elim (Bool-cases (same_key tenant user.id row)) [
      | inl here ↦ rw here ((user.rol_scope, refl, fits), rest)
      | inr other ↦ rw other (h.0, rest)
    ]

pub change_password_fits :
    (password : String) (now : ℕ) (user user' : User)
    → User_ops.change_password password now user ≡ ok user'
    → UserFits user
    → UserFits user'
unfolding User_ops.change_password
change_password_fits password now user user' e h = ground arith

pub update_fits :
    (params : UpdateParams) (now : ℕ) (user user' : User)
    → User_ops.update params now user ≡ ok user'
    → UserFits user
    → UserFits user'
unfolding User_ops.update
update_fits params now user user' e h =
    let same : user'.rol_scope ≡ user.rol_scope = ground arith in
    let same_branch : user'.branch_id ≡ user.branch_id = ground arith in rw (same, same_branch) h

pub toggle_fits :
    (now : ℕ) (user user' : User)
    → (if user.is_active then User_ops.deactivate now user else User_ops.activate now user)
      ≡ ok user'
    → UserFits user
    → UserFits user'
unfolding User_ops.activate User_ops.deactivate
toggle_fits now user user' e h = ground arith

-- A branch that was given and read is not the empty text.
checked_fits :
    (scope : RolScope) (branch : Option String) {u : Unit {0}}
    → ensure_branch_matches_rol_scope scope branch ≡ ok u
    → ((b : String) → branch ≡ some b → is_empty b ≡ false)
    → branch_fits scope branch ≡ true
unfolding ensure_branch_matches_rol_scope
checked_fits RolScope.administrative none e h = refl
checked_fits RolScope.administrative (some b) e h = absurd (ground arith)
checked_fits RolScope.operational none e h = absurd (ground arith)
checked_fits RolScope.operational (some b) e h = let read = h b refl in ground arith

pub reassign_fits :
    (scope : RolScope) (rol_id rol_name : String) (branch : Option String) (now : ℕ)
    (user user' : User)
    → User_ops.reassign scope rol_id rol_name branch now user ≡ ok user'
    → ((b : String) → branch ≡ some b → is_empty b ≡ false)
    → UserFits user'
unfolding User_ops.reassign
reassign_fits scope rol_id rol_name branch now user user' e h =
    let checked : ensure_branch_matches_rol_scope scope branch ≡ ok tt = ground arith in
    let fits = checked_fits scope branch checked h in ground arith

pub create_fits :
    (params : UserData) (id : String) (now : ℕ) (user : User)
    → User_ops.create params id now ≡ ok user
    → ((b : String) → params.branch_id ≡ some b → is_empty b ≡ false)
    → UserFits user
unfolding User_ops.create
create_fits params id now user e h =
    let checked : ensure_branch_matches_rol_scope params.rol_scope params.branch_id ≡ ok tt =
      ground arith in
    let fits = checked_fits params.rol_scope params.branch_id checked h in ground arith
