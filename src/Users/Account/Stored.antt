-- ===== src/Users/Account/Stored.antt =====
-- What a request on a user writes to the table, field by field.
use komi_saas_api.Base.{
  ℕ, String, Option, some, true, not, List, [], ◌∷◌, map, find, filter, ◌≡◌, refl, arith,
  Bool-cases, Option-cases, inl, inr, eq_iff, subst, sym, ap,
}
use komi_saas_api.Base.Apart.{find-passes}
use komi_saas_api.Base.Throws.{Result, ok, ◌>>=◌, bind-ok}
use komi_saas_api.Users.Failure.{Platform, user_not_found}
use komi_saas_api.Users.Values.{
  RolScope, Sex, scope_text, sex_text, create_scope, create_id, create_user_name, create_email,
  from_hash, birth_date_of, create_sex, create_phone,
}
use komi_saas_api.Users.User.{User}
use komi_saas_api.Users.Table as Table
use komi_saas_api.Users.Table.{
  UserRow, same_key, create_given, from_primitives, optional_aggregate, search_aggregate_by_id,
  to_primitives, written,
}
use komi_saas_api.Users.Requests.{the_user, or_throw}

-- The rows but those of the key.
abbrev pub others : String → String → List UserRow → List UserRow
others tenant id rows = filter (λ row. not (same_key tenant id row)) rows

create_id_lem : (platform : Platform) (raw id : String) → create_id platform raw ≡ ok id → id ≡ raw
unfolding create_id
create_id_lem platform raw id e = ground arith

birth_date_of_lem : (today moment age : ℕ) → birth_date_of today moment ≡ ok age → age ≡ moment
unfolding birth_date_of
birth_date_of_lem today moment age e = ground arith

from_hash_lem : (hash hashed : String) → from_hash hash ≡ ok hashed → hashed ≡ hash
unfolding from_hash
from_hash_lem hash hashed e = ground arith

abbrev ok_of : (E : Type 0) {A : Type 0} → A → Result E A
ok_of E a = ok a

ok_injective : {E A : Type 0} {a b : A} → ok_of E a ≡ ok b → a ≡ b
ok_injective e = ground arith

-- A chain that ends well goes on with the value of its first step.
through :
    {E A B C : Type 0} {r : Result E A} {next : A → Result E B} {b : B}
    → (r >>= next) ≡ ok b
    → ((a : A) → r ≡ ok a → next a ≡ ok b → C)
    → C
through e k = let (a, ea, rest) = bind-ok e in k a ea rest

module _ (platform : Platform) where
  -- The row after a change of the password: the hash and the moment are new; the branch, the scope,
  -- the name of the account, the e-mail, the sex and the telephone are what their value objects read
  -- in the row, and all else is as it was.
  abbrev pub PasswordSet : String → ℕ → UserRow → UserRow → Type 0
  PasswordSet hash now old new =
      (scope : RolScope) × (sex : Sex) × (create_scope platform old.rol_scope ≡ ok scope)
      × (create_sex platform old.sex ≡ ok sex)
      × (create_given (create_id platform) old.branch_id ≡ ok new.branch_id)
      × (create_user_name old.user_name ≡ ok new.user_name)
      × (create_given (create_email platform) old.email ≡ ok new.email)
      × (create_phone old.phone ≡ ok new.phone)
      × (new ≡ record old {
        password = hash;
        updated_at = now;
        rol_scope = scope_text scope;
        sex = sex_text sex;
        branch_id = new.branch_id;
        user_name = new.user_name;
        email = new.email;
        phone = new.phone;
      })

  -- What a user that is read has of the row.
  abbrev pub ReadFrom : ℕ → UserRow → User → Type 0
  ReadFrom now row user =
      (create_scope platform row.rol_scope ≡ ok user.rol_scope)
      × (create_sex platform row.sex ≡ ok user.sex)
      × (create_given (create_id platform) row.branch_id ≡ ok user.branch_id)
      × (create_user_name row.user_name ≡ ok user.user_name)
      × (create_given (create_email platform) row.email ≡ ok user.email)
      × (create_phone row.phone ≡ ok user.phone)
      × (to_primitives user ≡ record row {
        rol_scope = scope_text user.rol_scope;
        sex = sex_text user.sex;
        branch_id = user.branch_id;
        user_name = user.user_name;
        email = user.email;
        phone = user.phone;
      })

  read_user :
      (now : ℕ) (row : UserRow) (user : User)
      → from_primitives platform now row ≡ ok user
      → ReadFrom now row user
  unfolding from_primitives to_primitives
  read_user now row user e0 = through e0 λ id ei e1. through e1 λ tenant_id et e2.
      through e2 λ branch_id eb e3. through e3 λ rol_id er e4. through e4 λ rol_scope es e5.
        through e5 λ user_name en e6. through e6 λ email em e7. through e7 λ password eh e8.
          through e8 λ age ea e9. through e9 λ sex ex e10. through e10 λ phone ep e11.
            subst (ReadFrom now row) (ok_injective e11) (
              es,
              ex,
              eb,
              en,
              em,
              ep,
              rw
                  (
                    create_id_lem platform row.id id ei,
                    create_id_lem platform row.tenant_id tenant_id et,
                    create_id_lem platform row.rol_id rol_id er,
                    from_hash_lem row.password password eh,
                    birth_date_of_lem now row.age age ea,
                  )
                  refl,
            )

  -- The row that a user is written over.
  written_row :
      (tenant hash : String) (now : ℕ) (row : UserRow) (user : User)
      → from_primitives platform now row ≡ ok user
      → same_key tenant user.id row ≡ true
      → PasswordSet hash now row
          (written tenant (record user { password = hash; updated_at = now }) now row)
  unfolding to_primitives
  written_row tenant hash now row user e key =
      let (es, ex, eb, en, em, ep, same) = read_user now row user e in
      rw key (
        user.rol_scope,
        user.sex,
        es,
        ex,
        eb,
        en,
        em,
        ep,
        ap {A = UserRow}
            (λ r. record r {
              id = row.id;
              tenant_id = row.tenant_id;
              password = hash;
              created_at = row.created_at;
              updated_at = now;
            })
            same,
      )

same_key-written :
    (tenant id : String) (user : User) (now : ℕ) (row : UserRow)
    → same_key tenant id (written tenant user now row) ≡ same_key tenant id row
same_key-written tenant id user now row = elim (Bool-cases (same_key tenant user.id row)) [
  | inl here ↦ rw here refl
  | inr other ↦ rw other refl
]

find-written :
    (tenant id : String) (user : User) (now : ℕ) (rows : List UserRow) (row : UserRow)
    → find (same_key tenant id) rows ≡ some row
    → find (same_key tenant id) (map (written tenant user now) rows)
      ≡ some (written tenant user now row)
find-written tenant id user now [] row e = absurd (ground arith)
find-written tenant id user now (r ∷ rows) row e = elim (Bool-cases (same_key tenant id r)) [
  | inl here ↦
      rw (same_key-written tenant id user now r, here)
        (ap some (ap (written tenant user now) (ground arith)))
  | inr other ↦
      rw (same_key-written tenant id user now r, other)
        (find-written tenant id user now rows row (ground arith))
]

others-written :
    (tenant : String) (user : User) (now : ℕ) (rows : List UserRow)
    → others tenant user.id (map (written tenant user now) rows) ≡ others tenant user.id rows
others-written tenant user now [] = refl
others-written tenant user now (r ∷ rows) = elim (Bool-cases (same_key tenant user.id r)) [
  | inl here ↦
      rw (same_key-written tenant user.id user now r, here) (others-written tenant user now rows)
  | inr other ↦
      rw (same_key-written tenant user.id user now r, other)
        (ap (λ rest. r ∷ rest) (others-written tenant user now rows))
]

module _ (platform : Platform) where
  found_row :
      (tenant id : String) (now : ℕ) (rows : List UserRow) (found : Option User) (user : User)
      → search_aggregate_by_id platform tenant id now rows ≡ ok found
      → or_throw (user_not_found id) found ≡ ok user
      → (row : UserRow) × (find (same_key tenant id) rows ≡ some row)
        × (from_primitives platform now row ≡ ok user)
  unfolding search_aggregate_by_id or_throw
  found_row tenant id now rows found user ef e =
      elim (Option-cases (find (same_key tenant id) rows)) [
        | inl gone ↦ absurd (ground arith)
        | inr (row, there) ↦ (row, there, ground arith)
      ]

  the_user_row :
      (tenant id : String) (now : ℕ) (rows : List UserRow) (user : User)
      → the_user platform tenant id now rows ≡ ok user
      → (row : UserRow) × (find (same_key tenant id) rows ≡ some row)
        × (from_primitives platform now row ≡ ok user)
  unfolding the_user
  the_user_row tenant id now rows user e = through e λ tenant_id et e1. through e1 λ user_id ei e2.
      through e2 λ found ef e3.
        found_row tenant id now rows found user
          (subst (λ t. search_aggregate_by_id platform t id now rows ≡ ok found)
            (create_id_lem platform tenant tenant_id et)
            (subst (λ i. search_aggregate_by_id platform tenant_id i now rows ≡ ok found)
              (create_id_lem platform id user_id ei) ef))
          e3

  -- A change of the password
  pub password_stored :
      (tenant id hash : String) (now : ℕ) (rows : List UserRow) (user : User)
      → the_user platform tenant id now rows ≡ ok user
      → let rows' =
          Table.update tenant (record user { password = hash; updated_at = now }) now rows in
        (old new : UserRow) × (find (same_key tenant id) rows ≡ some old)
        × (find (same_key tenant id) rows' ≡ some new)
        × PasswordSet platform hash now old new
        × (others tenant id rows' ≡ others tenant id rows)
  unfolding Table.update to_primitives
  password_stored tenant id hash now rows user e =
      let (old, there, read) = the_user_row tenant id now rows user e in
      let key : same_key tenant id old ≡ true = find-passes (same_key tenant id) rows old there in
      let named : user.id ≡ id =
        ground (arith, ap (λ r. r.id) (read_user platform now old user read).6, eq_iff old.id id) in
      let user' : User = record user { password = hash; updated_at = now } in
      (
        old,
        written tenant user' now old,
        there,
        find-written tenant id user' now rows old there,
        written_row platform tenant hash now old user read
            (subst (λ i. same_key tenant i old ≡ true) (sym named) key),
        subst (λ i. others tenant i (map (written tenant user' now) rows) ≡ others tenant i rows)
            named (others-written tenant user' now rows),
      )
