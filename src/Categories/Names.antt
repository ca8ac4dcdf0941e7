-- ===== src/Categories/Names.antt =====
-- The names of the categories of a tenant, through the requests: no two differ in the case of letters
-- alone.
pub mod Reading
pub mod Steps
use komi_saas_api.Base.{
  ℕ, String, Option, none, some, Bool, true, false, ◌&&◌, ◌||◌, List, [], ◌∷◌, map, find, any,
  str_eq, ◌≡◌, refl, arith, All, All-map, Bool-cases, Option-cases, inl, inr, eq_iff, subst, sym,
  or_else,
}
use komi_saas_api.Base.Apart.{Apart, Apart-append, Apart-map, any-none, find-All}
use komi_saas_api.Base.Throws.{Result, ok, bind-ok, then-ok, throw_if}
use komi_saas_api.Shared.Value.{create_uuid, trimmed_between-again}
use komi_saas_api.Categories.Category as Category_ops
use komi_saas_api.Categories.Category.{
  CategoryError, already_exists, tenant_id_required, name_too_short, name_too_long, Category,
  create_name,
}
use komi_saas_api.Categories.Table as Table
use komi_saas_api.Categories.Table.{
  CategoryRow, Outcome, Ports, same_key, has_name, to_domain, find_by_id, exists_by_name, settle,
  to_entity, save, written,
}
use komi_saas_api.Categories.Requests.{
  UpdateParams, ensure_tenant, or_not_found, changed_name, set_active, create_category,
  update_category,
}

pub create_name-again : (raw name : String) → create_name raw ≡ ok name → create_name name ≡ ok name
unfolding create_name
create_name-again raw name e = trimmed_between-again 2 120 name_too_short name_too_long raw name e

pub settle-ok :
    (name : String) (outcome : Outcome) (rows rows' : List CategoryRow)
    → settle name outcome rows ≡ ok rows'
    → (outcome ≡ Outcome.stored) × (rows ≡ rows')
unfolding settle
settle-ok name Outcome.stored rows rows' e = (refl, ground arith)
settle-ok name Outcome.unique_violation rows rows' e = absurd (ground arith)
settle-ok name Outcome.failed rows rows' e = absurd (ground arith)

-- The name after an update is the one given, or the one that was there.
pub update-name :
    (name description : Option String) (now : ℕ) (c : Category)
    → (Category_ops.update name description now c).name ≡ or_else name c.name
unfolding Category_ops.update
update-name none description now c = ground arith
update-name (some given) description now c = ground (arith, eq_iff given c.name)

pub update-key :
    (name description : Option String) (now : ℕ) (c : Category)
    → ((Category_ops.update name description now c).id ≡ c.id)
      × ((Category_ops.update name description now c).tenant_id ≡ c.tenant_id)
unfolding Category_ops.update
update-key none description now c = ground arith
update-key (some given) description now c = ground arith

pub set_active-keeps :
    (flag : Option Bool) (now : ℕ) (c c' : Category)
    → set_active flag now c ≡ ok c'
    → (c'.id ≡ c.id) × (c'.tenant_id ≡ c.tenant_id) × (c'.name ≡ c.name)
unfolding set_active Category_ops.activate Category_ops.deactivate
set_active-keeps none now c c' e = ground arith
set_active-keeps (some true) now c c' e = ground arith
set_active-keeps (some false) now c c' e = ground arith

module _ (ports : Ports) where
  -- Two rows with one id, or of one tenant with names that `LOWER` makes one.
  abbrev pub clash : CategoryRow → CategoryRow → Bool
  clash r s =
      str_eq r.id s.id
      || (str_eq r.tenant_id s.tenant_id
          && str_eq (ports.sql_lower r.name) (ports.sql_lower s.name))

  abbrev pub IsKept : CategoryRow → Type 0
  IsKept row = create_name row.name ≡ ok row.name

  -- Every name is one that the value object accepts as it is, and no two rows clash.
  abbrev pub IsTidy : List CategoryRow → Type 0
  IsTidy rows = All IsKept rows × Apart clash rows

  -- The name is borne by no row but those of the key.
  abbrev pub Free : String → String → String → CategoryRow → Type 0
  Free id tenant name row = same_key id tenant row ≡ false → has_name ports name tenant row ≡ false

  Free-after :
      (id tenant : String) (r s : CategoryRow)
      → same_key id tenant r ≡ true
      → clash r s ≡ false
      → Free id tenant r.name s
  Free-after id tenant r s k apart other = ground (
    arith,
    eq_iff r.id id,
    eq_iff r.tenant_id tenant,
    eq_iff r.tenant_id s.tenant_id,
    eq_iff s.tenant_id tenant,
    eq_iff (ports.sql_lower r.name) (ports.sql_lower s.name),
    eq_iff (ports.sql_lower s.name) (ports.sql_lower r.name),
  )

  Free-before :
      (id tenant : String) (r s : CategoryRow)
      → same_key id tenant r ≡ true
      → clash s r ≡ false
      → Free id tenant r.name s
  Free-before id tenant r s k apart other =
      ground (
        arith,
        eq_iff r.tenant_id tenant,
        eq_iff s.tenant_id r.tenant_id,
        eq_iff s.tenant_id tenant,
      )

  -- The name of a row that is found is free, where no two rows clash.
  pub found-Free :
      (id tenant : String) (r : CategoryRow) (rows : List CategoryRow)
      → find (same_key id tenant) rows ≡ some r
      → Apart clash rows
      → All (Free id tenant r.name) rows
  found-Free id tenant r [] e h = tt
  found-Free id tenant r (s ∷ rows) e h = elim (Bool-cases (same_key id tenant s)) [
    | inl here ↦
        let same : s ≡ r = ground arith in
        (
          λ other. absurd (ground arith),
          All-map (λ (y : CategoryRow). clash s y ≡ false) (Free id tenant r.name)
              (λ y apart.
                subst (λ (z : CategoryRow). Free id tenant z.name y) same
                  (Free-after id tenant s y here apart))
              rows h.0,
        )
    | inr later ↦
        let there : find (same_key id tenant) rows ≡ some r = ground arith in
        let (apart, key) =
          find-All (λ (y : CategoryRow). clash s y ≡ false) (same_key id tenant) rows r there h.0 in
        (Free-before id tenant r s key apart, found-Free id tenant r rows there h.1)
  ]

  -- Writing a free name over the row of a key keeps the rows apart.
  pub written_apart :
      (c : Category) (now : ℕ) (x y : CategoryRow)
      → Free c.id c.tenant_id c.name x
      → Free c.id c.tenant_id c.name y
      → clash x y ≡ false
      → clash (written c now x) (written c now y) ≡ false
  written_apart c now x y fx fy apart = ground (
    arith,
    fx,
    fy,
    eq_iff x.id c.id,
    eq_iff y.id c.id,
    eq_iff x.id y.id,
    eq_iff x.tenant_id c.tenant_id,
    eq_iff y.tenant_id c.tenant_id,
    eq_iff x.tenant_id y.tenant_id,
    eq_iff (ports.sql_lower c.name) (ports.sql_lower y.name),
    eq_iff (ports.sql_lower y.name) (ports.sql_lower c.name),
  )

  pub all_fresh :
      (new : CategoryRow) (rows : List CategoryRow)
      → any (λ r. str_eq r.id new.id) rows ≡ false
      → exists_by_name ports new.name new.tenant_id none rows ≡ false
      → All (λ (r : CategoryRow). clash r new ≡ false) rows
  unfolding exists_by_name
  all_fresh new [] ei en = tt
  all_fresh new (r ∷ rows) ei en = (ground arith, all_fresh new rows (ground arith) (ground arith))

  pub IsKept-after :
      (c : Category) (now : ℕ) (rows : List CategoryRow)
      → create_name c.name ≡ ok c.name
      → All IsKept rows
      → All IsKept (map (written c now) rows)
  IsKept-after c now [] e h = tt
  IsKept-after c now (r ∷ rows) e h = (
    elim (Bool-cases (same_key c.id c.tenant_id r)) [ inl k ↦ rw k e | inr k ↦ rw k h.0 ],
    IsKept-after c now rows e h.1,
  )
