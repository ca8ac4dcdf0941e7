-- ===== src/Users/Scope/Steps.antt =====
-- The requests on users, one after another, and what each leaves in the table.
use komi_saas_api.Base.{
  ℕ, String, Option, none, some, Bool, true, false, not, List, [], ◌∷◌, is_empty, ◌≡◌, refl, subst,
  sym, arith, All, All-append,
}
use komi_saas_api.Base.Throws.{Result, ok, ◌>>◌, throw_if, bind-ok, then-ok}
use komi_saas_api.Users.Failure.{UserError, Platform, rol_not_found, not_stored}
use komi_saas_api.Users.Values.{RolScope, create_id, create_sex, create_phone, birth_date_of}
use komi_saas_api.Users.User as User_ops
use komi_saas_api.Users.User.{User, UserData, UserCreated}
use komi_saas_api.Users.Table.{UserRow, create_given, to_primitives, save}
use komi_saas_api.Users.Requests.{
  Ports, CreateUserParams, the_user, if_given, or_throw, find_rol, ensure_branch, check_place,
  check_credentials, read_data, create_user, reassign_user, toggle_user_status,
}
use komi_saas_api.Users.Account.{
  UpdateUserParams, ensure_free_name, ensure_free_email, read_changes, update_user,
  change_user_password,
}
use komi_saas_api.Users.Account.Password.{change_passes}
use komi_saas_api.Users.Scope.{
  ScopeFits, UserFits, the_user-UserFits, update-ScopeFits, update_fits, toggle_fits, reassign_fits,
  create_fits,
}

-- One request that is answered well.
pub data Step (platform : Platform) (ports : Ports) : List UserRow → List UserRow → Type 0 where
  created :
      {rows rows' : List UserRow} (params : CreateUserParams) (id : String) (now : ℕ)
      (events : List UserCreated)
      → create_user platform ports params id now rows ≡ ok (rows', events)
      → Step platform ports rows rows'
  updated :
      {rows rows' : List UserRow} (tenant id : String) (params : UpdateUserParams) (now : ℕ)
      → update_user platform tenant id params now rows ≡ ok rows'
      → Step platform ports rows rows'
  reassigned :
      {rows rows' : List UserRow} (tenant id rol : String) (branch : Option String) (now : ℕ)
      → reassign_user platform ports tenant id rol branch now rows ≡ ok rows'
      → Step platform ports rows rows'
  toggled :
      {rows rows' : List UserRow} (tenant id : String) (now : ℕ)
      → toggle_user_status platform ports tenant id now rows ≡ ok rows'
      → Step platform ports rows rows'
  password_changed :
      {rows rows' : List UserRow} (tenant authenticated scope target : String)
      (current : Option String) (new : String) (now : ℕ)
      → change_user_password platform ports tenant authenticated scope target current new now rows
        ≡ ok rows'
      → Step platform ports rows rows'

pub data Steps (platform : Platform) (ports : Ports) : List UserRow → List UserRow → Type 0 where
  start : {rows : List UserRow} → Steps platform ports rows rows
  then_step :
      {rows rows' rows'' : List UserRow}
      → Step platform ports rows rows'
      → Steps platform ports rows' rows''
      → Steps platform ports rows rows''

given_branch :
    (platform : Platform) (given branch : Option String)
    → if_given (create_id platform) given ≡ ok branch
    → (b : String) → branch ≡ some b
    → is_empty b ≡ false
unfolding create_id if_given
given_branch platform none branch e b h = absurd (ground arith)
given_branch platform (some given) branch e b h = ground arith

created_branch :
    (platform : Platform) (given branch : Option String)
    → create_given (create_id platform) given ≡ ok branch
    → (b : String) → branch ≡ some b
    → is_empty b ≡ false
unfolding create_id create_given
created_branch platform none branch e b h = absurd (ground arith)
created_branch platform (some given) branch e b h = ground arith

good_end :
    {rows rows' : List UserRow}
    → All ScopeFits rows
    → ◌≡◌ {A = Result UserError (List UserRow)} (ok rows) (ok rows')
    → All ScopeFits rows'
good_end {rows} {rows'} h e = let same : rows ≡ rows' = ground arith in subst (All ScopeFits) same h

save-ScopeFits :
    (user : User) (rows : List UserRow)
    → UserFits user
    → All ScopeFits rows
    → All ScopeFits (save user rows)
unfolding save to_primitives
save-ScopeFits user rows fits h =
    All-append ScopeFits rows (to_primitives user ∷ []) h ((user.rol_scope, refl, fits), tt)

stored_end :
    (user : User) (rows rows' : List UserRow) (events : List UserCreated) (accepted : Bool)
    → ◌≡◌ {A = Result UserError (List UserRow × List UserCreated)}
        (throw_if (not accepted) not_stored >> ok (save user rows, user.domain_events))
        (ok (rows', events))
    → All ScopeFits (save user rows)
    → All ScopeFits rows'
stored_end user rows rows' events true e h =
    let same : save user rows ≡ rows' = ground arith in subst (All ScopeFits) same h
stored_end user rows rows' events false e h = absurd (ground arith)

module _ (platform : Platform) (ports : Ports)
    (administrative_upper : platform.upper_case "ADMINISTRATIVE" ≡ "ADMINISTRATIVE")
    (operational_upper : platform.upper_case "OPERATIONAL" ≡ "OPERATIONAL") where
  updated_fits :
      (tenant id : String) (params : UpdateUserParams) (now : ℕ) (rows rows' : List UserRow)
      → update_user platform tenant id params now rows ≡ ok rows'
      → All ScopeFits rows
      → All ScopeFits rows'
  unfolding update_user
  updated_fits tenant id params now rows rows' e h =
      let (user, eu, e1) = bind-ok e in
      let (_, e2) =
        then-ok {check = ensure_free_name platform tenant id user params.user_name rows} e1 in
      let (_, e3) =
        then-ok {check = ensure_free_email platform tenant id user params.email rows} e2 in
      let (changes, _, e4) = bind-ok {r = read_changes platform params now} e3 in
      let (user', ec, e5) = bind-ok {r = User_ops.update changes now user} e4 in
      let fits =
        the_user-UserFits platform administrative_upper operational_upper tenant id now rows user eu
          h in
      good_end
        (update-ScopeFits tenant user' now rows (update_fits changes now user user' ec fits) h) e5

  reassigned_fits :
      (tenant id rol : String) (branch : Option String) (now : ℕ) (rows rows' : List UserRow)
      → reassign_user platform ports tenant id rol branch now rows ≡ ok rows'
      → All ScopeFits rows
      → All ScopeFits rows'
  unfolding reassign_user
  reassigned_fits tenant id rol branch now rows rows' e h =
      let (user, eu, e1) = bind-ok {r = the_user platform tenant id now rows} e in
      let (found, _, e2) = bind-ok {r = find_rol platform ports rol} e1 in
      let (there, _, e3) = bind-ok {r = or_throw (rol_not_found rol) found} e2 in
      let (_, e4) = then-ok {check = ensure_branch platform ports branch tenant} e3 in
      let (branch', eb, e5) = bind-ok {r = if_given (create_id platform) branch} e4 in
      let (rol', _, e6) = bind-ok {r = create_id platform rol} e5 in
      let (user', ec, e7) =
        bind-ok {r = User_ops.reassign there.1 rol' there.0 branch' now user} e6 in
      let fits =
        reassign_fits there.1 rol' there.0 branch' now user user' ec
          (given_branch platform branch branch' eb) in
      good_end (update-ScopeFits tenant user' now rows fits h) e7

  toggled_fits :
      (tenant id : String) (now : ℕ) (rows rows' : List UserRow)
      → toggle_user_status platform ports tenant id now rows ≡ ok rows'
      → All ScopeFits rows
      → All ScopeFits rows'
  unfolding toggle_user_status
  toggled_fits tenant id now rows rows' e h =
      let (user, eu, e1) = bind-ok e in
      let (user', ec, e2) = bind-ok e1 in
      let fits =
        the_user-UserFits platform administrative_upper operational_upper tenant id now rows user eu
          h in
      good_end (update-ScopeFits tenant user' now rows (toggle_fits now user user' ec fits) h) e2

  password_fits :
      (tenant authenticated scope target : String) (current : Option String) (new : String)
      (now : ℕ) (rows rows' : List UserRow)
      → change_user_password platform ports tenant authenticated scope target current new now rows
        ≡ ok rows'
      → All ScopeFits rows
      → All ScopeFits rows'
  password_fits tenant authenticated scope target current new now rows rows' e h =
      let (user, eu, _, _, _, same) =
        change_passes platform ports tenant authenticated scope target current new now rows rows'
          e in
      let fits =
        the_user-UserFits platform administrative_upper operational_upper tenant target now rows
          user eu h in
      subst (All ScopeFits) (sym same) (
        update-ScopeFits tenant (record user { password = ports.hash new; updated_at = now }) now
          rows fits h)

  data_branch :
      (params : CreateUserParams) (now : ℕ) (rol : String × RolScope)
      (credentials : Option String × String × String) (given : UserData)
      → read_data platform ports params now rol credentials ≡ ok given
      → create_given (create_id platform) params.branch_id ≡ ok given.branch_id
  unfolding read_data
  data_branch params now (rol_name, rol_scope) (email, user_name, password) given e =
      let (tenant_id, _, e1) = bind-ok {r = create_id platform params.tenant_id} e in
      let (branch_id, eb, e2) =
        bind-ok {r = create_given (create_id platform) params.branch_id} e1 in
      let (rol_id, _, e3) = bind-ok {r = create_id platform params.rol_id} e2 in
      let (age, _, e4) = bind-ok {r = birth_date_of now params.age} e3 in
      let (sex, _, e5) = bind-ok {r = create_sex platform params.sex} e4 in
      let (phone, _, e6) = bind-ok {r = create_phone params.phone} e5 in ground arith

  created_fits :
      (params : CreateUserParams) (id : String) (now : ℕ) (events : List UserCreated)
      (rows rows' : List UserRow)
      → create_user platform ports params id now rows ≡ ok (rows', events)
      → All ScopeFits rows
      → All ScopeFits rows'
  unfolding create_user
  created_fits params id now events rows rows' e h =
      let (rol, _, e1) = bind-ok {r = check_place platform ports params} e in
      let (credentials, _, e2) = bind-ok {r = check_credentials platform ports params rows} e1 in
      let (given, ed, e3) = bind-ok {r = read_data platform ports params now rol credentials} e2 in
      let (user, ec, e4) = bind-ok {r = User_ops.create given id now} e3 in
      let branch =
        created_branch platform params.branch_id given.branch_id
          (data_branch params now rol credentials given ed) in
      let fits = create_fits given id now user ec branch in
      stored_end user rows rows' events (ports.accepts user) e4 (save-ScopeFits user rows fits h)

  step-ScopeFits :
      {rows rows' : List UserRow}
      → Step platform ports rows rows'
      → All ScopeFits rows
      → All ScopeFits rows'
  step-ScopeFits {rows} {rows'} (created params id now events e) h =
      created_fits params id now events rows rows' e h
  step-ScopeFits {rows} {rows'} (updated tenant id params now e) h =
      updated_fits tenant id params now rows rows' e h
  step-ScopeFits {rows} {rows'} (reassigned tenant id rol branch now e) h =
      reassigned_fits tenant id rol branch now rows rows' e h
  step-ScopeFits {rows} {rows'} (toggled tenant id now e) h =
      toggled_fits tenant id now rows rows' e h
  step-ScopeFits {rows} {rows'} (password_changed tenant who scope target current new now e) h =
      password_fits tenant who scope target current new now rows rows' e h

  -- Through any sequence of requests that succeed (creation, update, reassignment, change of
  -- status or of password), a table keeps that an administrative user has no branch and an
  -- operational one has a branch that is not the empty text, as the constraint of the database
  -- asks; upper case is assumed to keep the names of the two scopes.
  pub requests_keep_scope :
      {rows rows' : List UserRow}
      → Steps platform ports rows rows'
      → All ScopeFits rows
      → All ScopeFits rows'
  requests_keep_scope start h = h
  requests_keep_scope (then_step s rest) h = requests_keep_scope rest (step-ScopeFits s h)
