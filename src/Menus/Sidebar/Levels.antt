-- ===== src/Menus/Sidebar/Levels.antt =====
-- What the side bar shows, with no loop and no shared objects: three levels, where the menus under a
-- menu are those that name it as their parent, in the order of the list.
use komi_saas_api.Base.{
  String, Option, none, some, Bool, true, false, not, List, [], ◌∷◌, ◌++◌, is_some, find, filter,
  str_eq, ◌≡◌, All,
}
use komi_saas_api.Menus.Menu.{Menu, MenuType, to_response, expected_parent_type}
use komi_saas_api.Menus.Builder.{Tree, tree, Forest, empty, plus, same_type}

abbrev pub id_of : Menu → String
id_of m = m.id

abbrev pub has_id : String → Menu → Bool
has_id id m = str_eq m.id id

abbrev pub is_root : Menu → Bool
is_root m = not (is_some m.parent_id)

abbrev pub names : Option String → String → Bool
names none id = false
names (some parent) id = str_eq id parent

abbrev pub hangs_from : String → Menu → Bool
hangs_from id m = names m.parent_id id

abbrev pub children : List Menu → Menu → List Menu
children menus m = filter (hangs_from m.id) menus

abbrev pub forest : (Menu → Tree) → List Menu → Forest
forest f [] = empty
forest f (m ∷ ms) = plus (f m) (forest f ms)

abbrev pub leaf : Menu → Tree
leaf m = tree (to_response m) empty

abbrev pub branch : List Menu → Menu → Tree
branch menus m = tree (to_response m) (forest leaf (children menus m))

abbrev pub trunk : List Menu → Menu → Tree
trunk menus m = tree (to_response m) (forest (branch menus) (children menus m))

abbrev pub sidebar : List Menu → Forest
sidebar menus = forest (trunk menus) (filter is_root menus)

abbrev pub is_expected : Option MenuType → MenuType → Bool
is_expected none actual = true
is_expected (some expected) actual = same_type actual expected

abbrev pub fits_under : MenuType → Option Menu → Bool
fits_under type none = true
fits_under type (some parent) = is_expected (expected_parent_type type) parent.menu_type

abbrev pub fits_parent : List Menu → MenuType → Option String → Bool
fits_parent menus type none = true
fits_parent menus type (some parent) = fits_under type (find (has_id parent) menus)

-- The parent of a menu, where it is in the list, has the type that the menu expects.
abbrev pub well_hung : List Menu → Menu → Bool
well_hung menus m = fits_parent menus m.menu_type m.parent_id

-- Each id differs from those before it.
abbrev pub DistinctFrom : List Menu → List Menu → Type 0
DistinctFrom before [] = Unit
DistinctFrom before (m ∷ ms) =
    All (λ (b : Menu). str_eq b.id m.id ≡ false) before × DistinctFrom (before ++ (m ∷ [])) ms

abbrev pub DistinctIds : List Menu → Type 0
DistinctIds menus = DistinctFrom [] menus
