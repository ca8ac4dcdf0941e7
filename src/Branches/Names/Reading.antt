-- ===== src/Branches/Names/Reading.antt =====
-- What the requests on branches read from the table.
use Prim.Native.Char.{Char}
use komi_saas_api.Base.{
  ℕ, String, Option, none, some, true, false, not, ◌&&◌, List, [], ◌∷◌, find, any, str_eq, ◌≡◌,
  refl, arith, All, All-map, Bool-cases, Option-cases, inl, inr, eq_iff, subst, or_else,
}
use komi_saas_api.Base.Apart.{any-none, find-All}
use komi_saas_api.Base.Throws.{ok, bind-ok, then-ok, throw_if}
use komi_saas_api.Shared.Value.{create_uuid}
use komi_saas_api.Branches.Like.{IlikeLaws, same_text, ilike-escape_like}
use komi_saas_api.Branches.Branch.{
  name_exists, Branch, create_name, create_address, create_phone, create_city, create_department,
  has_name, invalid_uuid,
}
use komi_saas_api.Branches.Table.{
  BranchRow, Ports, same_key, to_aggregate, optional_aggregate, search_aggregate_by_id,
  exists_by_name,
}
use komi_saas_api.Branches.Requests.{or_not_found, the_branch, changed_name}
use komi_saas_api.Branches.Names.{create_name-again, bears, IsKept, Free, Free-again}

module _ (ports : Ports) (fold : Char → ℕ) (laws : IlikeLaws ports.ilike fold) where
  -- Where the database reads letters and escapes of ILIKE as documented, a name is found to exist
  -- exactly when a branch of the tenant that is not deleted has that name but for the case of
  -- letters: the characters %, _ and \ of a name stand for themselves.
  pub exists_by_name_lem :
      (name tenant : String) (rows : List BranchRow)
      → exists_by_name ports name tenant rows ≡ any (bears fold name tenant) rows
  unfolding exists_by_name
  exists_by_name_lem name tenant [] = refl
  exists_by_name_lem name tenant (r ∷ rows) =
      rw (ilike-escape_like laws name r.name, exists_by_name_lem name tenant rows) refl

  to_aggregate-keeps :
      (r : BranchRow) (b : Branch)
      → to_aggregate ports r ≡ ok b
      → IsKept fold r
      → (b.name ≡ r.name) × (b.id ≡ r.id) × (b.tenant_id ≡ r.tenant_id)
  unfolding to_aggregate
  to_aggregate-keeps r b e kept =
      let (id, ei, e1) = bind-ok {r = create_uuid ports.valid_uuid invalid_uuid r.id} e in
      let same : id ≡ r.id = unfold create_uuid in ground arith in
      let (name, en, e2) = bind-ok {r = create_name r.name} e1 in
      let named : name ≡ r.name = ground arith in
      let (address, _, e3) = bind-ok {r = create_address r.address} e2 in
      let (phone, _, e4) = bind-ok {r = create_phone r.phone} e3 in
      let (city, _, e5) = bind-ok {r = create_city r.city} e4 in
      let (department, _, e6) = bind-ok {r = create_department r.department} e5 in
      (ground arith, ground arith, ground arith)

  optional_found :
      (value tenant : String) (rows : List BranchRow) (found : Option Branch) (r : BranchRow)
      → find (same_key value tenant) rows ≡ some r
      → search_aggregate_by_id ports value tenant rows ≡ ok found
      → optional_aggregate ports (some r) ≡ ok found
  unfolding search_aggregate_by_id
  optional_found value tenant rows found r there e = rw there at e

  -- A row that was read, by the id that was read from the text.
  read_row :
      (id tenant value : String) (rows : List BranchRow) (found : Option Branch) (b : Branch)
      → value ≡ id
      → search_aggregate_by_id ports value tenant rows ≡ ok found
      → or_not_found id found ≡ ok b
      → All (IsKept fold) rows
      → (r : BranchRow) × (find (same_key id tenant) rows ≡ some r)
        × (b.name ≡ r.name)
        × (b.id ≡ id)
        × (b.tenant_id ≡ tenant)
        × IsKept fold r
  unfolding search_aggregate_by_id or_not_found
  read_row id tenant value rows found b same ef eb h =
      elim (Option-cases (find (same_key value tenant) rows)) [
        | inl gone ↦ absurd (ground arith)
        | inr (r, there) ↦
            let (kept, key) = find-All (IsKept fold) (same_key value tenant) rows r there h in
            let (m, em, e1) =
              bind-ok {r = to_aggregate ports r}
                (optional_found value tenant rows found r there ef) in
            let read : to_aggregate ports r ≡ ok b = ground arith in
            let (named, keyed, owned) = to_aggregate-keeps r b read kept in
            (
              r,
              subst (λ v. find (same_key v tenant) rows ≡ some r) same there,
              named,
              ground (arith, eq_iff r.id value),
              ground (arith, eq_iff r.tenant_id tenant),
              kept,
            )
      ]

  -- What a branch read from the table has of its row.
  pub found_row :
      (id tenant : String) (rows : List BranchRow) (b : Branch)
      → the_branch ports id tenant rows ≡ ok b
      → All (IsKept fold) rows
      → (r : BranchRow) × (find (same_key id tenant) rows ≡ some r)
        × (b.name ≡ r.name)
        × (b.id ≡ id)
        × (b.tenant_id ≡ tenant)
        × IsKept fold r
  unfolding the_branch search_aggregate_by_id
  found_row id tenant rows b e h =
      let (value, ev, e1) = bind-ok {r = create_uuid ports.valid_uuid invalid_uuid id} e in
      let same : value ≡ id = unfold create_uuid in ground arith in
      let (found, ef, e2) = bind-ok {r = search_aggregate_by_id ports value tenant rows} e1 in
      read_row id tenant value rows found b same ef e2 h

  -- JavaScript's lower case makes one only names that ILIKE takes for one.
  module _
      (one_case : (a b : String)
        → str_eq (ports.lower_case a) (ports.lower_case b) ≡ true
        → same_text fold a b ≡ true) where
    value-Free :
        (tenant value : String) (b : Branch) (rows : List BranchRow)
        → (not (has_name ports.lower_case value b) && exists_by_name ports value tenant rows)
          ≡ false
        → All (Free fold b.id tenant b.name) rows
        → All (Free fold b.id tenant value) rows
    value-Free tenant value b rows e free = elim (Bool-cases (has_name ports.lower_case value b)) [
      | inl same ↦
          All-map (Free fold b.id tenant b.name) (Free fold b.id tenant value)
            (λ row f.
              Free-again fold b.id tenant b.name value row
                (unfold has_name in one_case b.name value same) f)
            rows free
      | inr other ↦
          All-map (λ (row : BranchRow). bears fold value tenant row ≡ false)
            (Free fold b.id tenant value) (λ row f _. f) rows
            (any-none (bears fold value tenant) rows
              (rw (← exists_by_name_lem value tenant rows) (ground arith)))
    ]

    -- The name that an update leaves is valid and free.
    pub chosen_name :
        (tenant : String) (given : Option String) (b : Branch) (rows : List BranchRow)
        (name : Option String)
        → changed_name ports tenant given b rows ≡ ok name
        → create_name b.name ≡ ok b.name
        → All (Free fold b.id tenant b.name) rows
        → (create_name (or_else name b.name) ≡ ok (or_else name b.name))
          × All (Free fold b.id tenant (or_else name b.name)) rows
    unfolding changed_name
    chosen_name tenant none b rows name e kept free =
        let same : none ≡ name = ground arith in
        subst
          (λ (n : Option String).
            (create_name (or_else n b.name) ≡ ok (or_else n b.name))
            × All (Free fold b.id tenant (or_else n b.name)) rows)
          same (kept, free)
    chosen_name tenant (some raw) b rows name e kept free =
        let (value, ev, e1) = bind-ok {r = create_name raw} e in
        let (passed, e2) =
          then-ok
            {check = throw_if
              (not (has_name ports.lower_case value b) && exists_by_name ports value tenant rows)
              (name_exists raw)}
            e1 in
        let same : some value ≡ name = ground arith in
        subst
          (λ (n : Option String).
            (create_name (or_else n b.name) ≡ ok (or_else n b.name))
            × All (Free fold b.id tenant (or_else n b.name)) rows)
          same (create_name-again raw value ev, value-Free tenant value b rows (ground arith) free)
