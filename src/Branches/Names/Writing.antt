-- ===== src/Branches/Names/Writing.antt =====
-- What the requests on branches write: what an update keeps of a branch, and the table after a write.
use Prim.Native.Char.{Char}
use komi_saas_api.Base.{
  ℕ, String, Option, none, some, Bool, true, false, List, [], ◌∷◌, ◌++◌, map, any, str_eq, ◌≡◌,
  refl, arith, All, All-append, eq_iff, subst, sym, or_else, ◌∙◌,
}
use komi_saas_api.Base.Apart.{Apart-append, Apart-map}
use komi_saas_api.Base.Throws.{ok, bind-ok, then-ok, throw_if}
use komi_saas_api.Branches.Like.{IlikeLaws, same_text-sym}
use komi_saas_api.Branches.Branch as Branch_ops
use komi_saas_api.Branches.Branch.{
  BranchError, name_exists, Branch, BranchData, Changes, create_name, create_address, create_phone,
  create_city, create_department, has_name, set_active, invalid_uuid, is_empty_change,
  ensure_changed, empty_update,
}
use komi_saas_api.Branches.Table as Table
use komi_saas_api.Branches.Table.{
  BranchRow, Ports, same_key, to_aggregate, optional_aggregate, search_aggregate_by_id,
  exists_by_name, to_primitives, written, put_row, save,
}
use komi_saas_api.Branches.Requests.{read_changes, if_given}
use komi_saas_api.Branches.Names.{
  settle-ok, bears, clash, IsKept, IsTidy, Free, written_apart, IsKept-after,
}
use komi_saas_api.Branches.Names.Reading.{exists_by_name_lem}

set_active-keeps :
    (flag : Option Bool) (b b' : Branch)
    → set_active flag b ≡ ok b'
    → (b'.id ≡ b.id) × (b'.tenant_id ≡ b.tenant_id)
unfolding set_active
set_active-keeps none b b' e = ground arith
set_active-keeps (some true) b b' e = ground arith
set_active-keeps (some false) b b' e = ground arith

pub update-keeps :
    (p : Changes) (now : ℕ) (b b' : Branch)
    → Branch_ops.update p now b ≡ ok b'
    → (b'.id ≡ b.id) × (b'.tenant_id ≡ b.tenant_id) × (b'.name ≡ or_else p.name b.name)
unfolding Branch_ops.update
update-keeps p now b b' e =
    let (_, e1) = then-ok {check = throw_if (is_empty_change p) (empty_update b.id)} e in
    let (_, e2) = then-ok {check = ensure_changed "nombre" p.name b.name} e1 in
    let (_, e3) = then-ok {check = ensure_changed "dirección" p.address b.address} e2 in
    let (_, e4) = then-ok {check = ensure_changed "teléfono" p.phone b.phone} e3 in
    let (_, e5) = then-ok {check = ensure_changed "ciudad" p.city b.city} e4 in
    let (_, e6) = then-ok {check = ensure_changed "departamento" p.department b.department} e5 in
    let (m, em, e7) = bind-ok {r = set_active p.is_active b} e6 in
    ground (arith, set_active-keeps p.is_active b m em)

pub read_changes-name :
    (name : Option String) (params changes : Changes)
    → read_changes name params ≡ ok changes
    → changes.name ≡ name
unfolding read_changes
read_changes-name name params changes e =
    let (_, _, e1) = bind-ok {r = if_given create_address params.address} e in
    let (_, _, e2) = bind-ok {r = if_given create_phone params.phone} e1 in
    let (_, _, e3) = bind-ok {r = if_given create_city params.city} e2 in
    let (_, _, e4) = bind-ok {r = if_given create_department params.department} e3 in ground arith

put_row-new :
    (row : BranchRow) (rows : List BranchRow)
    → any (λ r. str_eq r.id row.id) rows ≡ false
    → put_row row rows ≡ rows ++ row ∷ []
unfolding put_row
put_row-new row [] e = refl
put_row-new row (r ∷ rows) e = ground (arith, put_row-new row rows)

module _ (ports : Ports) (fold : Char → ℕ) (laws : IlikeLaws ports.ilike fold) where
  all_fresh :
      (new : BranchRow) (rows : List BranchRow)
      → any (λ r. str_eq r.id new.id) rows ≡ false
      → any (bears fold new.name new.tenant_id) rows ≡ false
      → All (λ (r : BranchRow). clash fold r new ≡ false) rows
  all_fresh new [] ei en = tt
  all_fresh new (r ∷ rows) ei en = (
    ground (
      arith,
      same_text-sym fold r.name new.name,
      eq_iff r.tenant_id new.tenant_id,
      eq_iff new.tenant_id r.tenant_id,
    ),
    all_fresh new rows (ground arith) (ground arith),
  )

  pub save-IsTidy :
      (b : Branch) (rows rows' : List BranchRow)
      → save ports b rows ≡ ok rows'
      → any (λ r. str_eq r.id b.id) rows ≡ false
      → create_name b.name ≡ ok b.name
      → exists_by_name ports b.name b.tenant_id rows ≡ false
      → IsTidy fold rows
      → IsTidy fold rows'
  unfolding save to_primitives
  save-IsTidy b rows rows' e new kept fresh h =
      let added : rows ++ to_primitives b ∷ [] ≡ rows' =
        sym (put_row-new (to_primitives b) rows new)
        ∙ settle-ok b.name (ports.on_write (to_primitives b) rows) (put_row (to_primitives b) rows)
            rows' e in
      let unborne : any (bears fold b.name b.tenant_id) rows ≡ false =
        rw (← exists_by_name_lem ports fold laws b.name b.tenant_id rows) fresh in
      subst (IsTidy fold) added (
        All-append (IsKept fold) rows (to_primitives b ∷ []) h.0 (kept, tt),
        Apart-append (clash fold) (to_primitives b) rows h.1
            (all_fresh (to_primitives b) rows new unborne),
      )

  pub update-IsTidy :
      (b : Branch) (rows rows' : List BranchRow)
      → Table.update ports b rows ≡ ok rows'
      → create_name b.name ≡ ok b.name
      → All (Free fold b.id b.tenant_id b.name) rows
      → IsTidy fold rows
      → IsTidy fold rows'
  unfolding Table.update
  update-IsTidy b rows rows' e kept free h =
      let same =
        settle-ok b.name (ports.on_write (to_primitives b) rows) (map (written b) rows) rows' e in
      subst (IsTidy fold) same (
        IsKept-after fold b rows kept h.0,
        Apart-map (clash fold) (Free fold b.id b.tenant_id b.name) (written b)
            (written_apart fold b) rows free h.1,
      )
