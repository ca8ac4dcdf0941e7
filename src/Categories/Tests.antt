-- ===== src/Categories/Tests.antt =====
-- The requests on categories at a concrete table.
use komi_saas_api.Categories.Table as Table
use komi_saas_api.Base.{
  none, some, true, false, List, [], ◌∷◌, any, str_eq, ◌≡◌, refl, arith, trim, utf16_length,
  if◌then◌else◌,
}
use komi_saas_api.Base.Throws.{ok, err}
use komi_saas_api.Shared.Value.{create_uuid, trimmed_between}
use komi_saas_api.Categories.Category as Category_ops
use komi_saas_api.Categories.Category.{already_exists, create_name}
use komi_saas_api.Categories.Table.{
  CategoryRow, Outcome, Ports, settle, to_entity, find_by_id, exists_by_name, to_domain, save,
}
use komi_saas_api.Categories.Requests.{create_category, update_category}
use komi_saas_api.Categories.Names.{IsTidy}
use komi_saas_api.Categories.Names.Steps.{
  start, then_step, created, updated, category_names_stay_apart,
}

-- A database with a primary key.
abbrev keyed : CategoryRow → List CategoryRow → Outcome
keyed row rows = if any (λ r. str_eq r.id row.id) rows then Outcome.failed else Outcome.stored

abbrev ports : Ports
ports = record {
  valid_uuid = λ s. true;
  sql_lower = λ s. if str_eq s "BEBIDAS" then "bebidas" else s;
  tenant_found = λ s. true;
  on_insert = keyed;
  on_update = λ row rows. Outcome.stored;
}

keyed_lem :
    (row : CategoryRow) (rows : List CategoryRow)
    → keyed row rows ≡ Outcome.stored
    → any (λ r. str_eq r.id row.id) rows ≡ false
keyed_lem row rows e = ground arith

abbrev drinks : CategoryRow
drinks = record {
  id = "c1";
  tenant_id = "t1";
  name = "bebidas";
  description = none;
  is_active = true;
  created_at = 3;
  updated_at = 3;
}

abbrev cakes : CategoryRow
cakes = record drinks { id = "c2"; name = "postres"; created_at = 5; updated_at = 5 }

-- The name is trimmed before it is compared, and compared without regard to case.
create_again_example :
    create_category ports "t1" "  BEBIDAS " none "c2" 5 (drinks ∷ [])
    ≡ err (already_exists "BEBIDAS")
unfolding create_category trim utf16_length exists_by_name create_name trimmed_between
create_again_example = refl

create_example :
    create_category ports "t1" " postres" none "c2" 5 (drinks ∷ []) ≡ ok (drinks ∷ cakes ∷ [])
unfolding create_category trim utf16_length exists_by_name Category_ops.create save create_name
    trimmed_between
create_example = refl

-- A category may take its own name in other letters.
update_example :
    update_category ports "c1"
      (record { tenant_id = "t1"; name = some "BEBIDAS"; description = none; is_active = none })
      8
      (drinks ∷ cakes ∷ [])
    ≡ ok (record drinks { name = "BEBIDAS"; updated_at = 8 } ∷ cakes ∷ [])
unfolding update_category trim utf16_length exists_by_name find_by_id Category_ops.update
    Category_ops.touch to_entity settle create_uuid trimmed_between Table.update
update_example = refl

drinks-IsTidy : IsTidy ports (drinks ∷ [])
unfolding create_name trimmed_between trim utf16_length
drinks-IsTidy = ((refl, tt), (tt, tt))

category_names_stay_apart_example :
    IsTidy ports (record drinks { name = "BEBIDAS"; updated_at = 8 } ∷ cakes ∷ [])
category_names_stay_apart_example =
    category_names_stay_apart ports keyed_lem
      (then_step (created "t1" " postres" none "c2" 5 create_example) (
        then_step
          (updated "c1"
            (record {
              tenant_id = "t1";
              name = some "BEBIDAS";
              description = none;
              is_active = none;
            })
            8 update_example)
          start))
      drinks-IsTidy
