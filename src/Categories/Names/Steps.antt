-- ===== src/Categories/Names/Steps.antt =====
-- The requests on categories, one after another, and what each leaves in the table.
use komi_saas_api.Base.{
  ℕ, String, Option, none, false, List, any, is_empty, str_eq, ◌≡◌, arith, All, All-append, subst,
  or_else, ◌∙◌, ap, ◌∷◌, ◌++◌, [], map,
}
use komi_saas_api.Base.Apart.{Apart-append, Apart-map}
use komi_saas_api.Base.Throws.{ok, bind-ok, then-ok, throw_if}
use komi_saas_api.Categories.Category as Category_ops
use komi_saas_api.Categories.Category.{
  CategoryError, already_exists, tenant_id_required, Category, create_name,
}
use komi_saas_api.Categories.Table as Table
use komi_saas_api.Categories.Table.{
  CategoryRow, Outcome, Ports, find_by_id, exists_by_name, to_entity, save, written,
}
use komi_saas_api.Categories.Requests.{
  UpdateParams, ensure_tenant, or_not_found, changed_name, set_active, create_category,
  update_category,
}
use komi_saas_api.Categories.Names.{
  create_name-again, settle-ok, update-name, update-key, set_active-keeps, clash, IsKept, IsTidy,
  Free, found-Free, written_apart, all_fresh, IsKept-after,
}
use komi_saas_api.Categories.Names.Reading.{chosen_name, found_row}

-- One request that is answered well.
pub data Step (ports : Ports) : List CategoryRow → List CategoryRow → Type 0 where
  created :
      {rows rows' : List CategoryRow} (tenant raw : String) (description : Option String)
      (id : String) (now : ℕ)
      → create_category ports tenant raw description id now rows ≡ ok rows'
      → Step ports rows rows'
  updated :
      {rows rows' : List CategoryRow} (id : String) (params : UpdateParams) (now : ℕ)
      → update_category ports id params now rows ≡ ok rows'
      → Step ports rows rows'

pub data Steps (ports : Ports) : List CategoryRow → List CategoryRow → Type 0 where
  start : {rows : List CategoryRow} → Steps ports rows rows
  then_step :
      {rows rows' rows'' : List CategoryRow}
      → Step ports rows rows'
      → Steps ports rows' rows''
      → Steps ports rows rows''

module _ (ports : Ports)
    (primary_key : (row : CategoryRow) (rows : List CategoryRow)
      → ports.on_insert row rows ≡ Outcome.stored
      → any (λ r. str_eq r.id row.id) rows ≡ false) where
  save-IsTidy :
      (c : Category) (rows rows' : List CategoryRow)
      → save ports c rows ≡ ok rows'
      → create_name c.name ≡ ok c.name
      → exists_by_name ports c.name c.tenant_id none rows ≡ false
      → IsTidy ports rows
      → IsTidy ports rows'
  unfolding save to_entity
  save-IsTidy c rows rows' e kept fresh h =
      let (stored, same) =
        settle-ok c.name (ports.on_insert (to_entity c) rows) (rows ++ to_entity c ∷ []) rows' e in
      subst (IsTidy ports) same (
        All-append (IsKept ports) rows (to_entity c ∷ []) h.0 (kept, tt),
        Apart-append (clash ports) (to_entity c) rows h.1
            (all_fresh ports (to_entity c) rows (primary_key (to_entity c) rows stored) fresh),
      )

  created-IsTidy :
      (tenant raw : String) (description : Option String) (id : String) (now : ℕ)
      (rows rows' : List CategoryRow)
      → create_category ports tenant raw description id now rows ≡ ok rows'
      → IsTidy ports rows
      → IsTidy ports rows'
  unfolding create_category
  created-IsTidy tenant raw description id now rows rows' e h =
      let (_, e1) = then-ok {check = ensure_tenant ports tenant} e in
      let (name, en, e2) = bind-ok {r = create_name raw} e1 in
      let (_, e3) =
        then-ok
          {check = throw_if (exists_by_name ports name tenant none rows) (already_exists name)}
          e2 in
      save-IsTidy (Category_ops.create tenant name description id now) rows rows' e3
        (unfold Category_ops.create in create_name-again raw name en)
        (unfold Category_ops.create in ground arith) h

  update-IsTidy :
      (c : Category) (now : ℕ) (rows rows' : List CategoryRow)
      → Table.update ports c now rows ≡ ok rows'
      → create_name c.name ≡ ok c.name
      → All (Free ports c.id c.tenant_id c.name) rows
      → IsTidy ports rows
      → IsTidy ports rows'
  unfolding Table.update
  update-IsTidy c now rows rows' e kept free h =
      let (_, same) =
        settle-ok c.name (ports.on_update (to_entity c) rows) (map (written c now) rows) rows' e in
      subst (IsTidy ports) same (
        IsKept-after ports c now rows kept h.0,
        Apart-map (clash ports) (Free ports c.id c.tenant_id c.name) (written c now)
            (written_apart ports c now) rows free h.1,
      )

  -- The category that is written has the key asked for, and a name that is valid and free.
  updated-IsTidy :
      (id : String) (params : UpdateParams) (now : ℕ) (rows rows' : List CategoryRow)
      → update_category ports id params now rows ≡ ok rows'
      → IsTidy ports rows
      → IsTidy ports rows'
  unfolding update_category
  updated-IsTidy id params now rows rows' e h =
      let tenant = params.tenant_id in
      let (_, e1) = then-ok {check = throw_if (is_empty tenant) tenant_id_required} e in
      let (_, e2) = then-ok {check = ensure_tenant ports tenant} e1 in
      let (found, ef, e3) = bind-ok {r = find_by_id ports id tenant rows} e2 in
      let (c, ec, e4) = bind-ok {r = or_not_found id found} e3 in
      let (name, en, e5) = bind-ok {r = changed_name ports id tenant params.name rows} e4 in
      let updated = Category_ops.update name params.description now c in
      let (c', es, e6) = bind-ok {r = set_active params.is_active now updated} e5 in
      let (r, there, named, keyed, owned, kept) =
        found_row ports id tenant rows found c ef ec h.0 in
      let (valid, free) =
        chosen_name ports id tenant params.name rows name r.name en kept
          (found-Free ports id tenant r rows there h.1) in
      let (same_id, same_tenant, same_name) = set_active-keeps params.is_active now updated c' es in
      let (id_kept, tenant_kept) = update-key name params.description now c in
      let at_id : c'.id ≡ id = same_id ∙ id_kept ∙ keyed in
      let at_tenant : c'.tenant_id ≡ tenant = same_tenant ∙ tenant_kept ∙ owned in
      let at_name : c'.name ≡ or_else name r.name =
        same_name ∙ update-name name params.description now c ∙ ap (or_else name) named in
      update-IsTidy c' now rows rows' e6 (rw at_name valid) (rw (at_id, at_tenant, at_name) free) h

  step-IsTidy :
      {rows rows' : List CategoryRow}
      → Step ports rows rows'
      → IsTidy ports rows
      → IsTidy ports rows'
  step-IsTidy {rows} {rows'} (created tenant raw description id now e) h =
      created-IsTidy tenant raw description id now rows rows' e h
  step-IsTidy {rows} {rows'} (updated id params now e) h =
      updated-IsTidy id params now rows rows' e h

  -- Through any sequence of creations and updates of categories that succeed, a table keeps that
  -- no two rows have one id, that no two categories of a tenant have names that LOWER makes one,
  -- and that each name is as its value object leaves it. The database is assumed to refuse a row
  -- whose id is there.
  pub category_names_stay_apart :
      {rows rows' : List CategoryRow}
      → Steps ports rows rows'
      → IsTidy ports rows
      → IsTidy ports rows'
  category_names_stay_apart start h = h
  category_names_stay_apart (then_step s rest) h = category_names_stay_apart rest (step-IsTidy s h)
