-- ===== src/Menus/Builder.antt =====
-- The tree of the side bar (src/context/menus/application/services/menu-tree.builder.ts). The code
-- links mutable response objects; here a response object is named by the id of its menu, and its `items`
-- are the names of the objects that were pushed.
use komi_saas_api.Base.{
  ℕ, zero, suc, String, Option, none, some, Bool, true, false, List, [], ◌∷◌, ◌++◌, map, str_eq,
  if◌then◌else◌,
}
use komi_saas_api.Base.Throws.{Result, ok, err, ◌>>=◌, ◌>>◌}
use komi_saas_api.Menus.Menu.{
  Menu, MenuType, MenuError, wrong_parent, MenuResponse, to_response, expected_parent_type,
}

-- An entry of the map `nodes`, with the `items` of its response.
pub record Node : Type 0 where
  pub menu : Menu
  pub items : List String

abbrev pub new_node : Menu → Node
new_node menu = record { menu = menu; items = [] }

-- `nodes.set`: the value of a key that is there is replaced in place.
abbrev pub set_node : Menu → List Node → List Node
set_node menu [] = new_node menu ∷ []
set_node menu (n ∷ ns) =
    if str_eq n.menu.id menu.id then new_node menu ∷ ns else n ∷ set_node menu ns

unfoldable pub set_all : List Menu → List Node → List Node
set_all [] nodes = nodes
set_all (m ∷ ms) nodes = set_all ms (set_node m nodes)

-- `nodes.get`
unfoldable pub get_node : String → List Node → Option Node
get_node id [] = none
get_node id (n ∷ ns) = if str_eq n.menu.id id then some n else get_node id ns

abbrev pub push_item : String → String → Node → Node
push_item parent child n =
    if str_eq n.menu.id parent then record n { items = n.items ++ (child ∷ []) } else n

abbrev pub same_type : MenuType → MenuType → Bool
same_type MenuType.primary MenuType.primary = true
same_type MenuType.secondary MenuType.secondary = true
same_type MenuType.tertiary MenuType.tertiary = true
same_type _ _ = false

abbrev pub check_type : MenuType → Option MenuType → MenuType → Result MenuError (Unit {0})
check_type child none actual = ok tt
check_type child (some expected) actual =
    if same_type actual expected then ok tt else err (wrong_parent child expected actual)

unfoldable pub ensure_parent_is_of_expected_type : Menu → Menu → Result MenuError (Unit {0})
ensure_parent_is_of_expected_type menu parent =
    check_type menu.menu_type (expected_parent_type menu.menu_type) parent.menu_type

pub record Graph : Type 0 where
  pub roots : List String
  pub nodes : List Node

abbrev pub hang_on : Menu → Option Node → Graph → Result MenuError Graph
hang_on menu none graph = ok graph
hang_on menu (some parent) graph = do
  ensure_parent_is_of_expected_type menu parent.menu
  ok (record graph { nodes = map (push_item parent.menu.id menu.id) graph.nodes })

-- One turn of the loop over the nodes.
abbrev pub hang : Menu → Option String → Graph → Result MenuError Graph
hang menu none graph = ok (record graph { roots = graph.roots ++ (menu.id ∷ []) })
hang menu (some parent_id) graph = hang_on menu (get_node parent_id graph.nodes) graph

unfoldable pub hang_all : List Menu → Graph → Result MenuError Graph
unfolding ensure_parent_is_of_expected_type
hang_all [] graph = ok graph
hang_all (m ∷ ms) graph = hang m m.parent_id graph >>= λ graph'. hang_all ms graph'

abbrev pub menus_of : List Node → List Menu
menus_of nodes = map (λ (n : Node). n.menu) nodes

unfoldable pub build : List Menu → Result MenuError Graph
unfolding set_all hang_all
build menus =
    let nodes = set_all menus [] in hang_all (menus_of nodes) (record { roots = []; nodes = nodes })

-- What the linked objects are read as: a response with the trees of its items.
mutual
  pub data Tree : Type 0 where
    tree : MenuResponse → Forest → Tree

  pub data Forest : Type 0 where
    empty : Forest
    plus : Tree → Forest → Forest

abbrev pub plus_read : Option Tree → Option Forest → Option Forest
plus_read none rest = none
plus_read (some t) none = none
plus_read (some t) (some ts) = some (plus t ts)

abbrev pub read_all : (String → Option Tree) → List String → Option Forest
read_all read [] = some empty
read_all read (id ∷ ids) = plus_read (read id) (read_all read ids)

abbrev pub tree_of : Menu → Option Forest → Option Tree
tree_of menu none = none
tree_of menu (some items) = some (tree (to_response menu) items)

-- The object that `id` names, followed to a depth: `none` where that is not enough.
unfoldable pub read_tree : ℕ → List Node → String → Option Tree
unfolding get_node to_response
read_tree zero nodes id = none
read_tree (suc depth) nodes id =
    let deeper = read_all (read_tree depth nodes) in
    elim (get_node id nodes) [ none ↦ none | some n ↦ tree_of n.menu (deeper n.items) ]

-- The array that `build` returns, as it is serialised.
unfoldable pub read_graph : ℕ → Graph → Option Forest
unfolding read_tree
read_graph depth graph = read_all (read_tree depth graph.nodes) graph.roots
