-- ===== src/Branches/Names/Steps.antt =====
-- The requests on branches, one after another, and what each leaves in the table.
use Prim.Native.Char.{Char}
use komi_saas_api.Base.{
  ℕ, String, true, false, List, any, str_eq, ◌≡◌, arith, All, or_else, ◌∙◌, ap,
}
use komi_saas_api.Base.Throws.{ok, bind-ok, then-ok, throw_if}
use komi_saas_api.Branches.Like.{IlikeLaws, same_text}
use komi_saas_api.Branches.Branch as Branch_ops
use komi_saas_api.Branches.Branch.{
  BranchError, name_exists, Branch, BranchData, Changes, create_name, create_address, create_phone,
  create_city, create_department, has_name, set_active, invalid_uuid, is_empty_change,
  ensure_changed, empty_update,
}
use komi_saas_api.Branches.Table.{BranchRow, Ports, exists_by_name}
use komi_saas_api.Branches.Requests.{
  read_changes, ensure_tenant, the_branch, changed_name, create_branch, update_branch,
  delete_branch,
}
use komi_saas_api.Branches.Names.{IsTidy, create_name-again, Free, found-Free}
use komi_saas_api.Branches.Names.Reading.{found_row, chosen_name}
use komi_saas_api.Branches.Names.Writing.{
  update-keeps, read_changes-name, save-IsTidy, update-IsTidy,
}

-- One request that is answered well. A branch that is created draws an id that no row has.
pub data Step (ports : Ports) : List BranchRow → List BranchRow → Type 0 where
  created :
      {rows rows' : List BranchRow} (tenant : String) (params : BranchData) (id : String) (now : ℕ)
      → any (λ r. str_eq r.id id) rows ≡ false
      → create_branch ports tenant params id now rows ≡ ok rows'
      → Step ports rows rows'
  updated :
      {rows rows' : List BranchRow} (id tenant : String) (params : Changes) (now : ℕ)
      → update_branch ports id tenant params now rows ≡ ok rows'
      → Step ports rows rows'
  deleted :
      {rows rows' : List BranchRow} (id tenant : String) (now : ℕ)
      → delete_branch ports id tenant now rows ≡ ok rows'
      → Step ports rows rows'

pub data Steps (ports : Ports) : List BranchRow → List BranchRow → Type 0 where
  start : {rows : List BranchRow} → Steps ports rows rows
  then_step :
      {rows rows' rows'' : List BranchRow}
      → Step ports rows rows'
      → Steps ports rows' rows''
      → Steps ports rows rows''

module _ (ports : Ports) (fold : Char → ℕ) (laws : IlikeLaws ports.ilike fold)
    (one_case : (a b : String)
      → str_eq (ports.lower_case a) (ports.lower_case b) ≡ true
      → same_text fold a b ≡ true) where
  created-IsTidy :
      (tenant : String) (params : BranchData) (id : String) (now : ℕ) (rows rows' : List BranchRow)
      → any (λ r. str_eq r.id id) rows ≡ false
      → create_branch ports tenant params id now rows ≡ ok rows'
      → IsTidy fold rows
      → IsTidy fold rows'
  unfolding create_branch
  created-IsTidy tenant params id now rows rows' new e h =
      let (_, e1) = then-ok {check = ensure_tenant ports tenant} e in
      let (name, en, e2) = bind-ok {r = create_name params.name} e1 in
      let (fresh, e3) =
        then-ok {check = throw_if (exists_by_name ports name tenant rows) (name_exists name)} e2 in
      let (address, _, e4) = bind-ok {r = create_address params.address} e3 in
      let (phone, _, e5) = bind-ok {r = create_phone params.phone} e4 in
      let (city, _, e6) = bind-ok {r = create_city params.city} e5 in
      let (department, _, e7) = bind-ok {r = create_department params.department} e6 in
      let values : BranchData = record {
        name = name;
        address = address;
        phone = phone;
        city = city;
        department = department;
      } in
      save-IsTidy ports fold laws (Branch_ops.create tenant values id now) rows rows' e7
        (unfold Branch_ops.create in new)
        (unfold Branch_ops.create in create_name-again params.name name en)
        (unfold Branch_ops.create in ground arith) h

  updated-IsTidy :
      (id tenant : String) (params : Changes) (now : ℕ) (rows rows' : List BranchRow)
      → update_branch ports id tenant params now rows ≡ ok rows'
      → IsTidy fold rows
      → IsTidy fold rows'
  unfolding update_branch
  updated-IsTidy id tenant params now rows rows' e h =
      let (b, eb, e1) = bind-ok {r = the_branch ports id tenant rows} e in
      let (name, en, e2) = bind-ok {r = changed_name ports tenant params.name b rows} e1 in
      let (changes, ec, e3) = bind-ok {r = read_changes name params} e2 in
      let (b', eu, e4) = bind-ok {r = Branch_ops.update changes now b} e3 in
      let (r, there, named, keyed, owned, kept) =
        found_row ports fold laws id tenant rows b eb h.0 in
      let free : All (Free fold b.id tenant b.name) rows =
        rw (keyed, named) (found-Free fold id tenant r rows there h.1) in
      let (valid, still_free) =
        chosen_name ports fold laws one_case tenant params.name b rows name en (rw named kept)
          free in
      let (same_id, same_tenant, same_name) = update-keeps changes now b b' eu in
      let at_name : b'.name ≡ or_else name b.name =
        same_name ∙ ap (λ n. or_else n b.name) (read_changes-name name params changes ec) in
      update-IsTidy ports fold laws b' rows rows' e4 (rw at_name valid)
        (rw (same_id, same_tenant ∙ owned, at_name) still_free) h

  deleted-IsTidy :
      (id tenant : String) (now : ℕ) (rows rows' : List BranchRow)
      → delete_branch ports id tenant now rows ≡ ok rows'
      → IsTidy fold rows
      → IsTidy fold rows'
  unfolding delete_branch
  deleted-IsTidy id tenant now rows rows' e h =
      let (b, eb, e1) = bind-ok {r = the_branch ports id tenant rows} e in
      let (r, there, named, keyed, owned, kept) =
        found_row ports fold laws id tenant rows b eb h.0 in
      update-IsTidy ports fold laws (Branch_ops.delete now b) rows rows' e1
        (unfold Branch_ops.delete in rw named kept)
        (unfold Branch_ops.delete in
          rw (keyed, owned, named) (found-Free fold id tenant r rows there h.1))
        h

  step-IsTidy :
      {rows rows' : List BranchRow} → Step ports rows rows' → IsTidy fold rows → IsTidy fold rows'
  step-IsTidy {rows} {rows'} (created tenant params id now new e) h =
      created-IsTidy tenant params id now rows rows' new e h
  step-IsTidy {rows} {rows'} (updated id tenant params now e) h =
      updated-IsTidy id tenant params now rows rows' e h
  step-IsTidy {rows} {rows'} (deleted id tenant now e) h =
      deleted-IsTidy id tenant now rows rows' e h

  -- Through any sequence of creations, updates and deletions of branches that succeed, where each
  -- creation draws an id that no row has, a table keeps that no two rows have one id, that no two
  -- branches of a tenant that are not deleted have names that are one but for the case of letters,
  -- and that each name is as its value object leaves it. The database is assumed to read letters
  -- and escapes of ILIKE as documented, and to take for one the names that lower case makes one.
  pub branch_names_stay_apart :
      {rows rows' : List BranchRow} → Steps ports rows rows' → IsTidy fold rows → IsTidy fold rows'
  branch_names_stay_apart start h = h
  branch_names_stay_apart (then_step s rest) h = branch_names_stay_apart rest (step-IsTidy s h)
