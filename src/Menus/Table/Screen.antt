-- ===== src/Menus/Table/Screen.antt =====
-- What a request for the menu answers, from the rows of the table.
use komi_saas_api.Base.{
  String, some, Bool, true, false, List, [], ◌∷◌, filter, ◌≡◌, arith, All, all, filter-All, ◌∙◌,
  inl, inr,
}
use komi_saas_api.Base.Throws.{ok, err, Result-cases}
use komi_saas_api.Menus.Menu.{Menu, MenuError, IsPlaced, parse_type, from_primitives-IsPlaced}
use komi_saas_api.Menus.Builder.{Graph, read_graph}
use komi_saas_api.Menus.Sidebar.Levels.{DistinctIds, well_hung, sidebar}
use komi_saas_api.Menus.Sidebar.Loop.{linked, build-linked}
use komi_saas_api.Menus.Sidebar.Reading.{linked-sidebar}
use komi_saas_api.Menus.Table.{
  MenuRow, row_is_active, to_domain, all_to_domain, find_all_active, get_menu,
}

abbrev Active : MenuRow → Type 0
Active row = row.is_active ≡ true

module _ (valid_uuid : String → Bool) (upper_case : String → String) where
  to_domain-IsPlaced :
      (row : MenuRow) (menu : Menu)
      → to_domain valid_uuid upper_case row ≡ ok menu
      → IsPlaced menu × (menu.is_active ≡ row.is_active)
  unfolding to_domain
  to_domain-IsPlaced row menu e = elim (Result-cases (parse_type row.menu_type)) [
    | inr (x, bad) ↦ absurd (ground arith)
    | inl (type, known) ↦
        from_primitives-IsPlaced valid_uuid upper_case
          (record {
            id = row.id;
            parent_id = row.parent_id;
            menu_code = row.menu_code;
            menu_type = type;
            title = row.title;
            subtitle = row.subtitle;
            icon = row.icon;
            url = row.url;
            menu_order = row.menu_order;
            is_active = row.is_active;
            is_new = row.is_new;
          })
          menu (ground arith)
  ]

  all_to_domain-IsPlaced :
      (rows : List MenuRow) (menus : List Menu)
      → all_to_domain valid_uuid upper_case rows ≡ ok menus
      → All Active rows
      → All IsPlaced menus × All (λ (m : Menu). m.is_active ≡ true) menus
  unfolding all_to_domain
  all_to_domain-IsPlaced [] menus e active =
      let none_there : menus ≡ [] = ground arith in rw none_there (tt, tt)
  all_to_domain-IsPlaced (row ∷ rows) menus e active =
      elim (Result-cases (to_domain valid_uuid upper_case row)) [
        | inr (x, bad) ↦ absurd (ground arith)
        | inl (m, em) ↦ elim (Result-cases (all_to_domain valid_uuid upper_case rows)) [
          | inr (x, bad) ↦ absurd (ground arith)
          | inl (ms, es) ↦
              let (placed, on) = to_domain-IsPlaced row m em in
              let (all_are, all_on) = all_to_domain-IsPlaced rows ms es active.1 in
              let both : menus ≡ m ∷ ms = ground arith in
              rw both ((placed, all_are), (on ∙ active.0, all_on))
        ]
      ]

  -- Where the query keeps to the rows it was given and the active menus are read with distinct
  -- ids, all are active, and: if each parent in the list has the type that its child expects, a
  -- request for the menu answers objects which, read to a depth of three, are the side bar of
  -- those menus, with the branches of menus that are not in the list left out; otherwise it
  -- throws.
  pub shows_active_tree :
      (order_by : List MenuRow → List MenuRow)
      → ((P : MenuRow → Type 0) (rows : List MenuRow) → All P rows → All P (order_by rows))
      → (rows : List MenuRow) (menus : List Menu)
      → find_all_active valid_uuid upper_case order_by rows ≡ ok menus
      → DistinctIds menus
      → All (λ (m : Menu). m.is_active ≡ true) menus
        × (all (well_hung menus) menus ≡ true
            → (graph : Graph) × (get_menu valid_uuid upper_case order_by rows ≡ ok graph)
              × (read_graph 3 graph ≡ some (sidebar menus)))
        × (all (well_hung menus) menus ≡ false
            → (e : MenuError) × (get_menu valid_uuid upper_case order_by rows ≡ err e))
  unfolding find_all_active get_menu
  shows_active_tree order_by ordered rows menus e distinct =
      let (placed, on) =
        all_to_domain-IsPlaced (order_by (filter row_is_active rows)) menus e
          (ordered Active (filter row_is_active rows) (filter-All row_is_active rows)) in
      let (built, stopped) = build-linked menus distinct in
      (
        on,
        (λ good.
            (linked menus menus, rw e (built good), linked-sidebar menus distinct placed good)),
        λ bad. let (x, ex) = stopped bad in (x, rw e ex),
      )
