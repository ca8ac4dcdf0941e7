-- ===== src/Menus/Table/Mark.antt =====
-- The mark of a new menu: what a change of it leaves in the table.
use komi_saas_api.Base.{String, Option, none, some, Bool, if◌then◌else◌}
use komi_saas_api.Menus.Menu.{Menu, change_is_new}
use komi_saas_api.Menus.Table.{MenuRow, set_is_new}

abbrev pub marked : Bool → Bool → Option Menu → Option Menu
marked here is_new none = none
marked here is_new (some menu) = some (if here then change_is_new is_new menu else menu)

abbrev row_marked : String → Bool → Option MenuRow → Option MenuRow
row_marked id is_new none = none
row_marked id is_new (some row) = some (set_is_new id is_new row)
