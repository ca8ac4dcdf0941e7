-- ===== src/Branches/Names.antt =====
-- The names of the open and paused branches of a tenant, through the requests: no two differ in the case
-- of letters alone. A branch that is deleted leaves its name free.
pub mod Reading
pub mod Steps
pub mod Writing
use Prim.Native.Char.{Char}
use komi_saas_api.Base.{
  ℕ, String, Option, none, some, Bool, true, false, not, ◌&&◌, ◌||◌, List, [], ◌∷◌, map, find, any,
  str_eq, ◌≡◌, refl, arith, All, All-map, Bool-cases, Option-cases, inl, inr, eq_iff, subst,
  or_else,
}
use komi_saas_api.Base.Apart.{Apart, any-none, find-All}
use komi_saas_api.Base.Throws.{ok, bind-ok, then-ok, throw_if}
use komi_saas_api.Shared.Value.{create_uuid, trimmed_between-again}
use komi_saas_api.Branches.Like.{
  IlikeLaws, same_text, ilike-escape_like, same_text-sym, same_text_trans,
}
use komi_saas_api.Branches.Branch.{
  BranchError, name_exists, invalid_name, Branch, create_name, create_address, create_phone,
  create_city, create_department, has_name,
}
use komi_saas_api.Branches.Table.{
  BranchRow, Outcome, Ports, same_key, to_aggregate, search_aggregate_by_id, exists_by_name, settle,
  written, put_row,
}
use komi_saas_api.Branches.Requests.{or_not_found, the_branch, changed_name}

pub create_name-again : (raw name : String) → create_name raw ≡ ok name → create_name name ≡ ok name
unfolding create_name
create_name-again raw name e =
    trimmed_between-again 2 30 (invalid_name "mínimo 2 caracteres")
      (invalid_name "máximo 30 caracteres") raw name e

pub settle-ok :
    (name : String) (outcome : Outcome) (rows rows' : List BranchRow)
    → settle name outcome rows ≡ ok rows'
    → rows ≡ rows'
unfolding settle
settle-ok name Outcome.stored rows rows' e = ground arith
settle-ok name Outcome.unique_violation rows rows' e = absurd (ground arith)
settle-ok name Outcome.failed rows rows' e = absurd (ground arith)

module _ (fold : Char → ℕ) where
  -- A live row of the tenant that bears the name.
  abbrev pub bears : String → String → BranchRow → Bool
  bears name tenant row =
      same_text fold name row.name && str_eq row.tenant_id tenant && not row.is_deleted

  -- Two rows with one id, or two live ones of a tenant whose names differ in case at most.
  abbrev pub clash : BranchRow → BranchRow → Bool
  clash r s = str_eq r.id s.id || (not r.is_deleted && bears r.name r.tenant_id s)

  abbrev pub IsKept : BranchRow → Type 0
  IsKept row = create_name row.name ≡ ok row.name

  -- Every name is one that the value object accepts as it is, and no two rows clash.
  abbrev pub IsTidy : List BranchRow → Type 0
  IsTidy rows = All IsKept rows × Apart clash rows

  -- The name is borne by no row but those of the key.
  abbrev pub Free : String → String → String → BranchRow → Type 0
  Free id tenant name row = same_key id tenant row ≡ false → bears name tenant row ≡ false

  Free-after :
      (id tenant : String) (r s : BranchRow)
      → same_key id tenant r ≡ true
      → clash r s ≡ false
      → Free id tenant r.name s
  Free-after id tenant r s k apart other = ground (
    arith,
    eq_iff r.tenant_id tenant,
    eq_iff r.tenant_id s.tenant_id,
    eq_iff s.tenant_id tenant,
    eq_iff s.tenant_id r.tenant_id,
  )

  Free-before :
      (id tenant : String) (r s : BranchRow)
      → same_key id tenant r ≡ true
      → clash s r ≡ false
      → Free id tenant r.name s
  Free-before id tenant r s k apart other = ground (
    arith,
    eq_iff r.tenant_id tenant,
    eq_iff s.tenant_id r.tenant_id,
    eq_iff s.tenant_id tenant,
    eq_iff r.tenant_id s.tenant_id,
    same_text-sym fold r.name s.name,
  )

  -- The name of a row that is found is free, where no two rows clash.
  pub found-Free :
      (id tenant : String) (r : BranchRow) (rows : List BranchRow)
      → find (same_key id tenant) rows ≡ some r
      → Apart clash rows
      → All (Free id tenant r.name) rows
  found-Free id tenant r [] e h = tt
  found-Free id tenant r (s ∷ rows) e h = elim (Bool-cases (same_key id tenant s)) [
    | inl here ↦
        let same : s ≡ r = ground arith in
        (
          λ other. absurd (ground arith),
          All-map (λ (y : BranchRow). clash s y ≡ false) (Free id tenant r.name)
              (λ y apart.
                subst (λ (z : BranchRow). Free id tenant z.name y) same
                  (Free-after id tenant s y here apart))
              rows h.0,
        )
    | inr later ↦
        let there : find (same_key id tenant) rows ≡ some r = ground arith in
        let (apart, key) =
          find-All (λ (y : BranchRow). clash s y ≡ false) (same_key id tenant) rows r there h.0 in
        (Free-before id tenant r s key apart, found-Free id tenant r rows there h.1)
  ]

  -- A name that differs from a free one in case at most is free.
  Free-again :
      (id tenant name name' : String) (row : BranchRow)
      → same_text fold name name' ≡ true
      → Free id tenant name row
      → Free id tenant name' row
  Free-again id tenant name name' row e free other =
      ground (arith, free other, same_text_trans fold name name' row.name)

  -- Writing a free name over the row of a key keeps the rows apart.
  pub written_apart :
      (b : Branch) (x y : BranchRow)
      → Free b.id b.tenant_id b.name x
      → Free b.id b.tenant_id b.name y
      → clash x y ≡ false
      → clash (written b x) (written b y) ≡ false
  written_apart b x y fx fy apart = ground (
    arith,
    fx,
    fy,
    eq_iff x.id b.id,
    eq_iff y.id b.id,
    eq_iff x.id y.id,
    eq_iff x.tenant_id b.tenant_id,
    eq_iff y.tenant_id b.tenant_id,
    eq_iff x.tenant_id y.tenant_id,
    eq_iff y.tenant_id x.tenant_id,
    same_text-sym fold x.name b.name,
  )

  pub IsKept-after :
      (b : Branch) (rows : List BranchRow)
      → create_name b.name ≡ ok b.name
      → All IsKept rows
      → All IsKept (map (written b) rows)
  IsKept-after b [] e h = tt
  IsKept-after b (r ∷ rows) e h = (
    elim (Bool-cases (same_key b.id b.tenant_id r)) [ inl k ↦ rw k e | inr k ↦ rw k h.0 ],
    IsKept-after b rows e h.1,
  )
