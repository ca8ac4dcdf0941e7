-- ===== src/Menus/Tests.antt =====
-- The menu at concrete tables.
use komi_saas_api.Base.{
  String, Option, none, some, Bool, true, false, List, [], ◌∷◌, ◌≡◌, refl, All, all, trim,
  utf16_length,
}
use komi_saas_api.Base.Throws.{ok, err}
use komi_saas_api.Menus.Menu.{
  Menu, MenuType, MenuError, parse_type, create_code, create_title, create_id,
  ensure_root_is_primary, from_primitives, change_is_new,
}
use komi_saas_api.Menus.Builder.{Graph, read_graph}
use komi_saas_api.Menus.Sidebar.Levels.{well_hung, sidebar}
use komi_saas_api.Menus.Table.{
  MenuRow, to_domain, all_to_domain, find_all_active, get_menu, update_is_new,
}
use komi_saas_api.Menus.Table.Screen.{shows_active_tree}

abbrev row : String → Option String → String → String → Bool → MenuRow
row id parent menu_code type active = record {
  id = id;
  parent_id = parent;
  menu_code = menu_code;
  menu_type = type;
  title = menu_code;
  subtitle = none;
  icon = none;
  url = none;
  menu_order = 1;
  is_active = active;
  is_new = true;
}

-- The users are switched off, so the roles are not shown.
abbrev table : List MenuRow
table =
    row "inventory" none "INVENTORY" "PRIMARY" true
    ∷ row "items" (some "inventory") "INVENTORY_ITEMS" "SECONDARY" true
    ∷ row "users" (some "admin") "ADMIN_USERS" "SECONDARY" false
    ∷ row "roles" (some "users") "ADMIN_USERS_ROLES" "TERTIARY" true
    ∷ []

abbrev menu : String → Option String → String → MenuType → Menu
menu id parent menu_code type = record {
  id = id;
  parent_id = parent;
  menu_code = menu_code;
  menu_type = type;
  title = menu_code;
  subtitle = none;
  icon = none;
  url = none;
  menu_order = 1;
  is_active = true;
  is_new = true;
}

abbrev inventory : Menu
inventory = menu "inventory" none "INVENTORY" MenuType.primary

abbrev menus : List Menu
menus =
    inventory
    ∷ menu "items" (some "inventory") "INVENTORY_ITEMS" MenuType.secondary
    ∷ menu "roles" (some "users") "ADMIN_USERS_ROLES" MenuType.tertiary
    ∷ []

abbrev any_uuid : String → Bool
any_uuid id = true

abbrev as_it_is : String → String
as_it_is s = s

abbrev in_order : List MenuRow → List MenuRow
in_order rows = rows

found : find_all_active any_uuid as_it_is in_order table ≡ ok menus
unfolding find_all_active all_to_domain to_domain parse_type from_primitives ensure_root_is_primary
    create_id create_code create_title trim utf16_length
found = refl

shows_active_tree_example :
    All (λ (m : Menu). m.is_active ≡ true) menus
    × (all (well_hung menus) menus ≡ true
        → (graph : Graph) × (get_menu any_uuid as_it_is in_order table ≡ ok graph)
          × (read_graph 3 graph ≡ some (sidebar menus)))
    × (all (well_hung menus) menus ≡ false
        → (e : MenuError) × (get_menu any_uuid as_it_is in_order table ≡ err e))
shows_active_tree_example =
    shows_active_tree any_uuid as_it_is in_order (λ P rows h. h) table menus found
      (tt, ((refl, tt), ((refl, (refl, tt)), tt)))

abbrev after_mark : List MenuRow
after_mark = update_is_new any_uuid as_it_is (change_is_new false inventory) table
