-- ===== src/Menus/Sidebar/Reading.antt =====
-- The links of the builder, read to a depth of three, are the side bar.
use komi_saas_api.Base.{
  ℕ, suc, String, Option, none, some, true, false, List, [], ◌∷◌, ◌++◌, map, filter, find, str_eq,
  ◌≡◌, subst, refl, ap, ◌∙◌, arith, All, all, All-filter, All-map, Option-cases, inl, inr, eq_iff,
  eq_refl, append_assoc,
}
use komi_saas_api.Menus.Menu.{
  Menu, MenuType, IsPlaced, is_primary, expected_parent_type, to_response,
}
use komi_saas_api.Menus.Builder.{Node, Tree, tree, read_all, read_tree, read_graph}
use komi_saas_api.Menus.Sidebar.Levels.{
  id_of, has_id, is_root, hangs_from, children, forest, leaf, branch, trunk, sidebar, well_hung,
  is_expected, DistinctFrom, DistinctIds,
}
use komi_saas_api.Menus.Sidebar.Loop.{node_after, linked, get_node_lem}

find-skip :
    (id : String) (before rest : List Menu)
    → All (λ (b : Menu). str_eq b.id id ≡ false) before
    → find (has_id id) (before ++ rest) ≡ find (has_id id) rest
find-skip id [] rest h = refl
find-skip id (b ∷ bs) rest h = rw h.0 (find-skip id bs rest h.1)

abbrev Known : List Menu → Menu → Type 0
Known menus m = find (has_id m.id) menus ≡ some m

distinct-Known : (ms before : List Menu) → DistinctFrom before ms → All (Known (before ++ ms)) ms
distinct-Known [] before h = tt
distinct-Known (m ∷ ms) before h = (
  find-skip m.id before (m ∷ ms) h.0 ∙ rw (eq_refl m.id) refl,
  subst (λ all_menus. All (Known all_menus) ms) (append_assoc before (m ∷ []) ms)
      (distinct-Known ms (before ++ (m ∷ [])) h.1),
)

-- What is known of each menu of the list.
abbrev Good : List Menu → Menu → Type 0
Good menus m = Known menus m × IsPlaced m × (well_hung menus m ≡ true)

all-Good :
    (menus ms : List Menu)
    → All (Known menus) ms
    → All IsPlaced ms
    → all (well_hung menus) ms ≡ true
    → All (Good menus) ms
all-Good menus [] k p h = tt
all-Good menus (m ∷ ms) k p h =
    let fits : well_hung menus m ≡ true = ground arith in
    ((k.0, p.0, fits), all-Good menus ms k.1 p.1 (ground arith))

read_all-forest :
    (read : String → Option Tree) (f : Menu → Tree) (ms : List Menu)
    → All (λ (m : Menu). read m.id ≡ some (f m)) ms
    → read_all read (map id_of ms) ≡ some (forest f ms)
read_all-forest read f [] h = refl
read_all-forest read f (m ∷ ms) h = rw (h.0, read_all-forest read f ms h.1) refl

primary_lem : (t : MenuType) → is_primary t ≡ true → t ≡ MenuType.primary
primary_lem MenuType.primary h = refl
primary_lem MenuType.secondary h = absurd (ground arith)
primary_lem MenuType.tertiary h = absurd (ground arith)

module _ (menus : List Menu) where
  abbrev nodes : List Node
  nodes = map (node_after menus) menus

  -- The menus under one are read to a depth, so the menu is read to the next.
  read_tree-deeper :
      (depth : ℕ) (f : Menu → Tree) (m : Menu)
      → Known menus m
      → All (λ (c : Menu). read_tree depth nodes c.id ≡ some (f c)) (children menus m)
      → read_tree (suc depth) nodes m.id ≡ some (tree (to_response m) (forest f (children menus m)))
  unfolding read_tree
  read_tree-deeper depth f m known under =
      let (got, same) = (get_node_lem menus m.id menus).1 m known in
      ground (arith, read_all-forest (read_tree depth nodes) f (children menus m) under)

  fits-child :
      (m c : Menu)
      → Known menus m
      → Good menus c
      → hangs_from m.id c ≡ true
      → (is_primary c.menu_type ≡ false)
        × (is_expected (expected_parent_type c.menu_type) m.menu_type ≡ true)
  fits-child m c known (_, placed, hung) under = elim (Option-cases c.parent_id) [
    | inl h ↦ absurd (ground arith)
    | inr (parent, h) ↦
        let same : parent ≡ m.id = ground (arith, eq_iff m.id parent) in
        let found : find (has_id parent) menus ≡ some m = rw same known in
        (ground arith, ground arith)
  ]

  abbrev child_type : MenuType → Option MenuType
  child_type MenuType.primary = some MenuType.secondary
  child_type MenuType.secondary = some MenuType.tertiary
  child_type MenuType.tertiary = none

  next_level :
      (child parent : MenuType)
      → is_primary child ≡ false
      → is_expected (expected_parent_type child) parent ≡ true
      → child_type parent ≡ some child
  next_level MenuType.primary parent up fits = absurd (ground arith)
  next_level MenuType.secondary MenuType.primary up fits = refl
  next_level MenuType.secondary MenuType.secondary up fits = absurd (ground arith)
  next_level MenuType.secondary MenuType.tertiary up fits = absurd (ground arith)
  next_level MenuType.tertiary MenuType.primary up fits = absurd (ground arith)
  next_level MenuType.tertiary MenuType.secondary up fits = refl
  next_level MenuType.tertiary MenuType.tertiary up fits = absurd (ground arith)

  abbrev Under : Menu → Menu → Type 0
  Under m c = Good menus c × (child_type m.menu_type ≡ some c.menu_type)

  children-Under :
      (m : Menu) → Good menus m → All (Good menus) menus → All (Under m) (children menus m)
  children-Under m good all_good =
      All-map (λ (c : Menu). Good menus c × (hangs_from m.id c ≡ true)) (Under m)
        (λ c h.
          let (low, fits) = fits-child m c good.0 h.0 h.1 in
          (h.0, next_level c.menu_type m.menu_type low fits))
        (children menus m) (All-filter (Good menus) (hangs_from m.id) menus all_good)

  nothing-Under :
      (m : Menu) (cs : List Menu) → m.menu_type ≡ MenuType.tertiary → All (Under m) cs → cs ≡ []
  nothing-Under m [] h under = refl
  nothing-Under m (c ∷ cs) h under = let bad = under.0.1 in absurd (ground arith)

  module _ (all_good : All (Good menus) menus) where
    read-leaf :
        (m : Menu)
        → Good menus m
        → m.menu_type ≡ MenuType.tertiary
        → read_tree 1 nodes m.id ≡ some (leaf m)
    read-leaf m good h =
        let none_under = nothing-Under m (children menus m) h (children-Under m good all_good) in
        read_tree-deeper 0 leaf m good.0 (rw none_under tt)
        ∙ ap (λ cs. some (tree (to_response m) (forest leaf cs))) none_under

    read-branch :
        (m : Menu)
        → Good menus m
        → m.menu_type ≡ MenuType.secondary
        → read_tree 2 nodes m.id ≡ some (branch menus m)
    read-branch m good h = read_tree-deeper 1 leaf m good.0 (
        All-map (Under m) (λ (c : Menu). read_tree 1 nodes c.id ≡ some (leaf c))
          (λ c under. read-leaf c under.0 (ground arith)) (children menus m)
          (children-Under m good all_good))

    read-trunk :
        (m : Menu)
        → Good menus m
        → m.menu_type ≡ MenuType.primary
        → read_tree 3 nodes m.id ≡ some (trunk menus m)
    read-trunk m good h = read_tree-deeper 2 (branch menus) m good.0 (
        All-map (Under m) (λ (c : Menu). read_tree 2 nodes c.id ≡ some (branch menus c))
          (λ c under. read-branch c under.0 (ground arith)) (children menus m)
          (children-Under m good all_good))

    root-primary : (m : Menu) → Good menus m → is_root m ≡ true → m.menu_type ≡ MenuType.primary
    root-primary m (_, placed, _) h = primary_lem m.menu_type (ground arith)

pub linked-sidebar :
    (menus : List Menu)
    → DistinctIds menus
    → All IsPlaced menus
    → all (well_hung menus) menus ≡ true
    → read_graph 3 (linked menus menus) ≡ some (sidebar menus)
unfolding read_graph
linked-sidebar menus distinct placed hung =
    let good = all-Good menus menus (distinct-Known menus [] distinct) placed hung in
    read_all-forest (read_tree 3 (nodes menus)) (trunk menus) (filter is_root menus) (
      All-map (λ (m : Menu). Good menus m × (is_root m ≡ true))
        (λ (m : Menu). read_tree 3 (nodes menus) m.id ≡ some (trunk menus m))
        (λ m h. read-trunk menus good m h.0 (root-primary menus good m h.0 h.1))
        (filter is_root menus) (All-filter (Good menus) is_root menus good))
