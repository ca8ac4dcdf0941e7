-- ===== src/Menus/Sidebar/Loop.antt =====
-- The two loops of the builder: what the map and the links are after each turn.
use komi_saas_api.Base.{
  String, none, some, Bool, true, false, List, [], ◌∷◌, ◌++◌, map, filter, find, str_eq, is_some,
  not, ◌≡◌, refl, ap, sym, ◌∙◌, arith, All, all, Bool-cases, Option-cases, inl, inr, eq_iff,
  append_assoc, append-nil,
}
use komi_saas_api.Base.Throws.{ok, err}
use komi_saas_api.Menus.Menu.{Menu, MenuError, wrong_parent, expected_parent_type}
use komi_saas_api.Menus.Builder.{
  Node, new_node, set_node, set_all, get_node, push_item, ensure_parent_is_of_expected_type, Graph,
  hang, hang_all, menus_of, build,
}
use komi_saas_api.Menus.Sidebar.Levels.{
  id_of, has_id, is_root, hangs_from, well_hung, DistinctFrom, DistinctIds,
}

abbrev pub node_after : List Menu → Menu → Node
node_after done m = record { menu = m; items = map id_of (filter (hangs_from m.id) done) }

-- The links after the menus `done`.
abbrev pub linked : List Menu → List Menu → Graph
linked menus done = record {
  roots = map id_of (filter is_root done);
  nodes = map (node_after done) menus;
}

set_node-new :
    (m : Menu) (before : List Menu)
    → All (λ (b : Menu). str_eq b.id m.id ≡ false) before
    → set_node m (map new_node before) ≡ map new_node (before ++ (m ∷ []))
set_node-new m [] h = refl
set_node-new m (b ∷ bs) h = rw h.0 (ap (λ ns. new_node b ∷ ns) (set_node-new m bs h.1))

set_all-new :
    (menus before : List Menu)
    → DistinctFrom before menus
    → set_all menus (map new_node before) ≡ map new_node (before ++ menus)
unfolding set_all
set_all-new [] before h = ap (map new_node) (sym (append-nil before))
set_all-new (m ∷ ms) before h =
    rw (set_node-new m before h.0) (
      set_all-new ms (before ++ (m ∷ [])) h.1 ∙ ap (map new_node) (append_assoc before (m ∷ []) ms))

menus_of-new : (menus : List Menu) → menus_of (map new_node menus) ≡ menus
menus_of-new [] = refl
menus_of-new (m ∷ ms) = ap (λ xs. m ∷ xs) (menus_of-new ms)

filter-snoc :
    (q : Menu → Bool) (m : Menu) (xs : List Menu)
    → (q m ≡ true → map id_of (filter q (xs ++ (m ∷ []))) ≡ map id_of (filter q xs) ++ (m.id ∷ []))
      × (q m ≡ false → map id_of (filter q (xs ++ (m ∷ []))) ≡ map id_of (filter q xs))
filter-snoc q m [] = ((λ h. rw h refl), λ h. rw h refl)
filter-snoc q m (x ∷ xs) =
    let ih = filter-snoc q m xs in
    elim (Bool-cases (q x)) [
      | inl e ↦
          ((λ h. rw e (ap (λ ys. x.id ∷ ys) (ih.0 h))), λ h. rw e (ap (λ ys. x.id ∷ ys) (ih.1 h)))
      | inr e ↦ ((λ h. rw e (ih.0 h)), λ h. rw e (ih.1 h))
    ]

pub get_node_lem :
    (done : List Menu) (parent : String) (menus : List Menu)
    → (find (has_id parent) menus ≡ none → get_node parent (map (node_after done) menus) ≡ none)
      × ((p : Menu)
          → find (has_id parent) menus ≡ some p
          → (get_node parent (map (node_after done) menus) ≡ some (node_after done p))
            × (p.id ≡ parent))
unfolding get_node
get_node_lem done parent [] = ((λ h. refl), λ p h. absurd (ground arith))
get_node_lem done parent (m ∷ ms) =
    let ih = get_node_lem done parent ms in
    elim (Bool-cases (str_eq m.id parent)) [
      | inl e ↦ ((λ h. absurd (ground arith)), λ p h. ground (arith, eq_iff m.id parent))
      | inr e ↦ ((λ h. ground (arith, ih.0)), λ p h. ground (arith, ih.1 p))
    ]

-- A menu with a parent leaves the roots as they are, and is pushed where its parent's name stands.
pushed :
    (done : List Menu) (m : Menu) (parent : String) (menus : List Menu)
    → m.parent_id ≡ some parent
    → map (push_item parent m.id) (map (node_after done) menus)
      ≡ map (node_after (done ++ (m ∷ []))) menus
pushed done m parent [] h = refl
pushed done m parent (x ∷ xs) h =
    let rest = pushed done m parent xs h in
    let items = filter-snoc (hangs_from x.id) m done in
    let test : hangs_from x.id m ≡ str_eq x.id parent = rw h refl in
    elim (Bool-cases (str_eq x.id parent)) [
      | inl e ↦ ground (arith, rest, items.0 (test ∙ e))
      | inr e ↦ ground (arith, rest, items.1 (test ∙ e))
    ]

-- No menu of the list is the parent.
not_pushed :
    (done : List Menu) (m : Menu) (parent : String) (menus : List Menu)
    → m.parent_id ≡ some parent
    → find (has_id parent) menus ≡ none
    → map (node_after (done ++ (m ∷ []))) menus ≡ map (node_after done) menus
not_pushed done m parent [] h missing = refl
not_pushed done m parent (x ∷ xs) h missing =
    let items = filter-snoc (hangs_from x.id) m done in
    let test : hangs_from x.id m ≡ str_eq x.id parent = rw h refl in
    elim (Bool-cases (str_eq x.id parent)) [
      | inl e ↦ absurd (ground arith)
      | inr e ↦
          rw (items.1 (test ∙ e))
            (ap (λ ns. node_after done x ∷ ns) (not_pushed done m parent xs h (ground arith)))
    ]

no_parent :
    (done : List Menu) (m : Menu) (menus : List Menu)
    → m.parent_id ≡ none
    → map (node_after (done ++ (m ∷ []))) menus ≡ map (node_after done) menus
no_parent done m [] h = refl
no_parent done m (x ∷ xs) h =
    rw ((filter-snoc (hangs_from x.id) m done).1 (rw h refl))
      (ap (λ ns. node_after done x ∷ ns) (no_parent done m xs h))

same_roots :
    (done : List Menu) (m : Menu) (parent : String)
    → m.parent_id ≡ some parent
    → map id_of (filter is_root (done ++ (m ∷ []))) ≡ map id_of (filter is_root done)
same_roots done m parent h = (filter-snoc is_root m done).1 (rw h refl)

refused :
    (menus done : List Menu) (m p : Menu) {parent : String}
    → m.parent_id ≡ some parent
    → find (has_id parent) menus ≡ some p
    → get_node parent (map (node_after done) menus) ≡ some (node_after done p)
    → well_hung menus m ≡ false
    → (e : MenuError) × (hang m m.parent_id (linked menus done) ≡ err e)
unfolding ensure_parent_is_of_expected_type
refused menus done m p h there got bad = elim (Option-cases (expected_parent_type m.menu_type)) [
  | inl top ↦ absurd (ground arith)
  | inr (expected, below) ↦ (wrong_parent m.menu_type expected p.menu_type, ground arith)
]

hang-linked :
    (menus done : List Menu) (m : Menu)
    → (well_hung menus m ≡ true
        → hang m m.parent_id (linked menus done) ≡ ok (linked menus (done ++ (m ∷ []))))
      × (well_hung menus m ≡ false
          → (e : MenuError) × (hang m m.parent_id (linked menus done) ≡ err e))
unfolding ensure_parent_is_of_expected_type
hang-linked menus done m = elim (Option-cases m.parent_id) [
  | inl h ↦ (
    (λ good. ground (
      arith,
      (filter-snoc is_root m done).0 (ap (λ p. not (is_some p)) h),
      no_parent done m menus h,
    )),
    λ bad. absurd (ground arith),
  )
  | inr (parent, h) ↦
      let roots = same_roots done m parent h in
      let found = get_node_lem done parent menus in
      elim (Option-cases (find (has_id parent) menus)) [
        | inl missing ↦ (
          (λ good. ground (arith, found.0 missing, not_pushed done m parent menus h missing)),
          λ bad. absurd (ground arith),
        )
        | inr (p, there) ↦
            let (got, same) = found.1 p there in
            let links = pushed done m parent menus h in
            ((λ good. ground arith), λ bad. refused menus done m p h there got bad)
      ]
]

hang_all-linked :
    (menus ms done : List Menu)
    → (all (well_hung menus) ms ≡ true
        → hang_all ms (linked menus done) ≡ ok (linked menus (done ++ ms)))
      × (all (well_hung menus) ms ≡ false
          → (e : MenuError) × (hang_all ms (linked menus done) ≡ err e))
unfolding hang_all
hang_all-linked menus [] done = (
  (λ good. ap (λ xs. ok (linked menus xs)) (sym (append-nil done))),
  λ bad. absurd (ground arith),
)
hang_all-linked menus (m ∷ ms) done =
    let step = hang-linked menus done m in
    let rest = hang_all-linked menus ms (done ++ (m ∷ [])) in
    let reassoc = append_assoc done (m ∷ []) ms in
    elim (Bool-cases (well_hung menus m)) [
      | inl fits ↦
          rw (fits, step.0 fits)
            ((λ good. rest.0 good ∙ ap (λ xs. ok (linked menus xs)) reassoc), rest.1)
      | inr bad ↦
          let (e, stop) = step.1 bad in
          rw (bad, stop) ((λ good. absurd (ground arith)), λ _. (e, refl))
    ]

-- The builder links every menu whose parent is there, or refuses the list.
pub build-linked :
    (menus : List Menu)
    → DistinctIds menus
    → (all (well_hung menus) menus ≡ true → build menus ≡ ok (linked menus menus))
      × (all (well_hung menus) menus ≡ false → (e : MenuError) × (build menus ≡ err e))
unfolding build
build-linked menus distinct =
    rw (set_all-new menus [] distinct, menus_of-new menus) (hang_all-linked menus menus [])
