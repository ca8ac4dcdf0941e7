-- ===== src/Inventory/Repository/Reconcile.antt =====
-- Which configurations of branches survive a save.
use komi_saas_api.Base.{
  String, some, true, false, List, [], ◌∷◌, map, filter, any, str_eq, eq_iff, ◌≡◌, ◌≢◌, ◌⊎◌, inl,
  inr, refl, sym, ap, ◌∙◌, arith, All, Bool-cases,
}
use komi_saas_api.Shared.Decimal.{Decimal}
use komi_saas_api.Inventory.Item.{Item, BranchConfig}
use komi_saas_api.Inventory.Repository.{
  ConfigRow, upsert, upsert_all, config_key, config_rows, config_wanted, survives,
  reconcile_configs,
}

module _ {d : Decimal} where
  -- No row has the id.
  abbrev pub Absent : String → List (ConfigRow d) → Type 0
  Absent i rows = All (λ row. row.config.id ≢ i) rows

  -- The row is the only one with its id, which is the primary key.
  abbrev pub OnlyRow : ConfigRow d → List (ConfigRow d) → Type 0
  OnlyRow r rows = All (λ row. (row.config.id ≢ r.config.id) ⊎ (row ≡ r)) rows

  Absent-upsert :
      (i : String) (x : ConfigRow d) (rows : List (ConfigRow d))
      → x.config.id ≢ i
      → Absent i rows
      → Absent i (upsert config_key x rows)
  unfolding upsert
  Absent-upsert i x [] ne h = (ne, tt)
  Absent-upsert i x (row ∷ rows) ne h = elim (Bool-cases (str_eq row.config.id x.config.id)) [
    | inl same ↦ rw same (ne, h.1)
    | inr other ↦ rw other (h.0, Absent-upsert i x rows ne h.1)
  ]

  Absent-upsert_all :
      (i : String) (xs rows : List (ConfigRow d))
      → Absent i xs
      → Absent i rows
      → Absent i (upsert_all config_key xs rows)
  unfolding upsert_all
  Absent-upsert_all i [] rows h k = k
  Absent-upsert_all i (x ∷ xs) rows h k =
      Absent-upsert_all i xs (upsert config_key x rows) h.1 (Absent-upsert i x rows h.0 k)

  Absent-config_rows :
      (i item_id : String) (cs : List (BranchConfig d))
      → any (λ c. str_eq c.id i) cs ≡ false
      → Absent i (map (λ c. record { item_id = item_id; config = c }) cs)
  Absent-config_rows i item_id [] h = tt
  Absent-config_rows i item_id (c ∷ cs) h =
      (ground (arith, eq_iff c.id i), Absent-config_rows i item_id cs (ground arith))

  Absent-filter :
      (item : Item d) (r : ConfigRow d) (rows : List (ConfigRow d))
      → OnlyRow r rows
      → survives item r ≡ false
      → Absent r.config.id (filter (survives item) rows)
  Absent-filter item r [] o h = tt
  Absent-filter item r (row ∷ rows) o h = elim (Bool-cases (survives item row)) [
    | inl kept ↦ rw kept (different r row o.0 kept h, Absent-filter item r rows o.1 h)
    | inr dropped ↦ rw dropped (Absent-filter item r rows o.1 h)
  ]
    where
      different :
          (r row : ConfigRow d)
          → (row.config.id ≢ r.config.id) ⊎ (row ≡ r)
          → survives item row ≡ true
          → survives item r ≡ false
          → row.config.id ≢ r.config.id
      different r row (inl ne) kept h = ne
      different r row (inr e) kept h = absurd (cc (sym h ∙ ap (survives item) (sym e) ∙ kept))

  -- A save deletes each configuration of the item that the item in memory does not hold.
  pub save_deletes :
      (item : Item d) (r : ConfigRow d) (rows : List (ConfigRow d))
      → OnlyRow r rows
      → r.item_id ≡ item.id
      → any (λ c. str_eq c.id r.config.id) item.branch_configs ≡ false
      → Absent r.config.id (reconcile_configs item rows)
  unfolding reconcile_configs
  save_deletes item r rows o mine unknown =
      Absent-upsert_all r.config.id (config_rows item) (filter (survives item) rows)
        (Absent-config_rows r.config.id item.id item.branch_configs unknown)
        (Absent-filter item r rows o (ground (arith, eq_iff r.item_id item.id)))

  -- A load for one branch does not bring the configurations of the others.
  pub load_leaves_out :
      (item_id branch : String) (r : ConfigRow d) (rows : List (ConfigRow d))
      → OnlyRow r rows
      → r.config.branch_id ≢ branch
      → any
          (λ c. str_eq c.id r.config.id)
          (map (λ row. row.config) (filter (config_wanted item_id (some branch)) rows))
        ≡ false
  load_leaves_out item_id branch r [] o ne = refl
  load_leaves_out item_id branch r (row ∷ rows) (inl other, o) ne =
      ground (arith, eq_iff row.config.id r.config.id, load_leaves_out item_id branch r rows o ne)
  load_leaves_out item_id branch r (row ∷ rows) (inr same, o) ne =
      rw same (
        ground
          (arith, eq_iff r.config.branch_id branch, load_leaves_out item_id branch r rows o ne))
