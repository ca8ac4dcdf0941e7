-- ===== src/Menus/Table.antt =====
-- The table of the menus (src/context/menus/infrastructure/persistence: the entity, the mapper and
-- repository/menu.repository.impl.ts) and the use cases
-- (application/use-cases: get-menu, update-menu-is-new).
use komi_saas_api.Base.{
  ℕ, String, Option, none, some, Bool, List, [], ◌∷◌, map, filter, find, str_eq, if◌then◌else◌,
}
use komi_saas_api.Base.Throws.{Result, ok, err, ◌>>=◌, ◌>>◌}
use komi_saas_api.Menus.Menu.{
  Menu, MenuError, not_found, parse_type, from_primitives, change_is_new,
}
use komi_saas_api.Menus.Builder.{Graph, build}
pub mod Screen
pub mod Mark

-- `MenuEntity`; the type is a text there.
pub record MenuRow : Type 0 where
  pub id : String
  pub parent_id : Option String
  pub menu_code : String
  pub menu_type : String
  pub title : String
  pub subtitle : Option String
  pub icon : Option String
  pub url : Option String
  pub menu_order : ℕ
  pub is_active : Bool
  pub is_new : Bool

abbrev pub row_is_active : MenuRow → Bool
row_is_active row = row.is_active

abbrev pub row_has_id : String → MenuRow → Bool
row_has_id id row = str_eq row.id id

-- `update({ id }, { isNew })`
abbrev pub set_is_new : String → Bool → MenuRow → MenuRow
set_is_new id is_new row = if row_has_id id row then record row { is_new = is_new } else row

module _ (valid_uuid : String → Bool) (upper_case : String → String) where
  -- `MenuMapper.toDomain`
  unfoldable pub to_domain : MenuRow → Result MenuError Menu
  to_domain row = do
    type ← parse_type row.menu_type
    from_primitives valid_uuid upper_case (record {
      id = row.id;
      parent_id = row.parent_id;
      menu_code = row.menu_code;
      menu_type = type;
      title = row.title;
      subtitle = row.subtitle;
      icon = row.icon;
      url = row.url;
      menu_order = row.menu_order;
      is_active = row.is_active;
      is_new = row.is_new;
    })

  -- `rows.map(MenuMapper.toDomain)`
  unfoldable pub all_to_domain : List MenuRow → Result MenuError (List Menu)
  all_to_domain [] = ok []
  all_to_domain (row ∷ rows) = do
    menu ← to_domain row
    menus ← all_to_domain rows
    ok (menu ∷ menus)

  -- `order_by` is the order of the query, by `order` and then by the title.
  unfoldable pub find_all_active :
      (List MenuRow → List MenuRow) → List MenuRow → Result MenuError (List Menu)
  unfolding all_to_domain
  find_all_active order_by rows = all_to_domain (order_by (filter row_is_active rows))

  abbrev pub optional_to_domain : Option MenuRow → Result MenuError (Option Menu)
  optional_to_domain none = ok none
  optional_to_domain (some row) = to_domain row >>= λ menu. ok (some menu)

  unfoldable pub find_by_id : String → List MenuRow → Result MenuError (Option Menu)
  unfolding to_domain
  find_by_id id rows = optional_to_domain (find (row_has_id id) rows)

  unfoldable pub update_is_new : Menu → List MenuRow → List MenuRow
  update_is_new menu rows = map (set_is_new menu.id menu.is_new) rows

  -- `GetMenuUseCase.execute`
  unfoldable pub get_menu : (List MenuRow → List MenuRow) → List MenuRow → Result MenuError Graph
  unfolding find_all_active
  get_menu order_by rows = find_all_active order_by rows >>= build

  abbrev pub mark_found :
      String → Bool → Option Menu → List MenuRow → Result MenuError (List MenuRow)
  mark_found id is_new none rows = err (not_found id)
  mark_found id is_new (some menu) rows = ok (update_is_new (change_is_new is_new menu) rows)

  -- `UpdateMenuIsNewUseCase.execute`: the rows after it.
  unfoldable pub update_menu_is_new : String → Bool → List MenuRow → Result MenuError (List MenuRow)
  unfolding find_by_id change_is_new
  update_menu_is_new id is_new rows = do menu ← find_by_id id rows; mark_found id is_new menu rows
