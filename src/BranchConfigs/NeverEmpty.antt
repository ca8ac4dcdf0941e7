-- ===== src/BranchConfigs/NeverEmpty.antt =====
-- A configuration says something: a price, an availability or both.
use komi_saas_api.Base.{
  ℕ, suc, String, Option, none, some, Bool, true, not, ◌&&◌, ◌||◌, List, [], ◌∷◌, is_some, or_else,
  any, str_eq, map, ◌≡◌, subst, arith, All, Bool-cases, Option-cases, inl, inr,
}
use komi_saas_api.Base.Throws.{Result, ok, bind-ok, then-ok, Result-cases}
use komi_saas_api.Shared.Decimal.{Decimal}
use komi_saas_api.Shared.Money.{Money}
use komi_saas_api.BranchConfigs.Config.{
  ConfigError, Config, ConfigRow, create, change, to_persistence,
}
use komi_saas_api.BranchConfigs.Requests.{
  Entry, Ports, ensure_no_duplicates, branch_of, delete_many, put_row, find_by_product, of_branch,
  to_money, given_money, apply_entry, prepare, save_many, ensure_branches, ensure_product,
  configure, find_to_remove, remove,
}

abbrev pub SaysSomething : ConfigRow → Type 0
SaysSomething row = is_some row.price_amount || is_some row.is_available ≡ true

abbrev IsFilled : {d : Decimal} → Config d → Type 0
IsFilled c = is_some c.price || is_some c.is_available ≡ true

pub data Step (d : Decimal) (ports : Ports) : List ConfigRow → List ConfigRow → Type 0 where
  configured :
      {rows rows' : List ConfigRow} (tenant product : String) (entries : List Entry)
      (answer : Result ConfigError (List (Config d)))
      → configure d ports tenant product entries rows ≡ ok (rows', answer)
      → Step d ports rows rows'
  removed :
      {rows rows' : List ConfigRow} (tenant product : String) (branches : List String)
      → remove d ports tenant product branches rows ≡ ok rows'
      → Step d ports rows rows'

pub data Steps (d : Decimal) (ports : Ports) : List ConfigRow → List ConfigRow → Type 0 where
  start : {rows : List ConfigRow} → Steps d ports rows rows
  then_step :
      {rows rows' rows'' : List ConfigRow}
      → Step d ports rows rows'
      → Steps d ports rows' rows''
      → Steps d ports rows rows''

module _ {d : Decimal} where
  create-IsFilled :
      (tenant product branch : String) (price : Option (Money d)) (flag : Option Bool) (id : String)
      (now : ℕ) (c : Config d)
      → create tenant product branch price flag id now ≡ ok c
      → IsFilled c
  unfolding create
  create-IsFilled tenant product branch none none id now c e = absurd (ground arith)
  create-IsFilled tenant product branch none (some f) id now c e = ground arith
  create-IsFilled tenant product branch (some p) flag id now c e = ground arith

  change-IsFilled :
      (price : Option (Option (Money d))) (flag : Option (Option Bool)) (now : ℕ) (c c' : Config d)
      → change price flag now c ≡ ok c'
      → IsFilled c'
  unfolding change
  change-IsFilled price flag now c c' e = elim (Option-cases (or_else price c.price)) [
    | inl no_price ↦ elim (Option-cases (or_else flag c.is_available)) [
      | inl no_flag ↦ absurd (ground arith)
      | inr (f, ef) ↦ ground arith
    ]
    | inr (p, ep) ↦ ground arith
  ]

  filled_row : (c : Config d) → IsFilled c → SaysSomething (to_persistence c)
  unfolding to_persistence
  filled_row c h = elim (Option-cases c.price) [
    | inl no_price ↦ ground arith
    | inr (p, ep) ↦ ground arith
  ]

put_row-SaysSomething :
    (row : ConfigRow) (rows : List ConfigRow)
    → SaysSomething row
    → All SaysSomething rows
    → All SaysSomething (put_row row rows)
put_row-SaysSomething row [] h hs = (h, tt)
put_row-SaysSomething row (r ∷ rows) h hs = elim (Bool-cases (str_eq r.id row.id)) [
  | inl here ↦ rw here (h, hs.1)
  | inr other ↦ rw other (hs.0, put_row-SaysSomething row rows h hs.1)
]

delete_many-SaysSomething :
    (ids : List String) (tenant : String) (rows : List ConfigRow)
    → All SaysSomething rows
    → All SaysSomething (delete_many ids tenant rows)
unfolding delete_many
delete_many-SaysSomething ids tenant [] h = tt
delete_many-SaysSomething ids tenant (row ∷ rows) h =
    let rest = delete_many-SaysSomething ids tenant rows h.1 in
    elim (Bool-cases (not (any (str_eq row.id) ids && str_eq row.tenant_id tenant))) [
      | inl kept ↦ rw kept (h.0, rest)
      | inr gone ↦ rw gone rest
    ]

module _ (d : Decimal) (ports : Ports) where
  apply_entry-IsFilled :
      (tenant product : String) (entry : Entry) (k : ℕ) (there : Option (Config d)) (c : Config d)
      → apply_entry d ports tenant product entry k there ≡ ok c
      → IsFilled c
  unfolding apply_entry
  apply_entry-IsFilled tenant product entry k none c e =
      let (price, _, made) = bind-ok {r = to_money d ports (or_else entry.price none)} e in
      create-IsFilled tenant product entry.branch_id price (or_else entry.is_available none)
        (ports.ids k) (ports.clocks k) c made
  apply_entry-IsFilled tenant product entry k (some existing) c e =
      let (price, _, made) = bind-ok {r = given_money d ports entry.price} e in
      change-IsFilled price entry.is_available (ports.clocks k) existing c made

  prepare-IsFilled :
      (tenant product : String) (current : List (Config d)) (k : ℕ) (entries : List Entry)
      (configs : List (Config d))
      → prepare d ports tenant product current k entries ≡ ok configs
      → All IsFilled configs
  unfolding prepare
  prepare-IsFilled tenant product current k [] configs e =
      let same : configs ≡ [] = ground arith in rw same tt
  prepare-IsFilled tenant product current k (entry ∷ entries) configs e =
      let there = of_branch d ports entry.branch_id current in
      elim (Result-cases (apply_entry d ports tenant product entry k there)) [
        | inr (x, bad) ↦ absurd (ground arith)
        | inl (c, ec) ↦
            elim (Result-cases (prepare d ports tenant product current (suc k) entries)) [
              | inr (x, bad) ↦ absurd (ground arith)
              | inl (cs, es) ↦
                  let same : configs ≡ c ∷ cs = ground arith in
                  rw same (
                    apply_entry-IsFilled tenant product entry k there c ec,
                    prepare-IsFilled tenant product current (suc k) entries cs es,
                  )
            ]
      ]

  save_many-SaysSomething :
      (configs : List (Config d)) (rows : List ConfigRow)
      → All IsFilled configs
      → All SaysSomething rows
      → All SaysSomething (save_many d ports configs rows)
  unfolding save_many
  save_many-SaysSomething [] rows hc h = h
  save_many-SaysSomething (c ∷ cs) rows hc h =
      save_many-SaysSomething cs (put_row (to_persistence c) rows) hc.1
        (put_row-SaysSomething (to_persistence c) rows (filled_row c hc.0) h)

  configured_says :
      (tenant product : String) (entries : List Entry) (rows rows' : List ConfigRow)
      (answer : Result ConfigError (List (Config d)))
      → configure d ports tenant product entries rows ≡ ok (rows', answer)
      → All SaysSomething rows
      → All SaysSomething rows'
  unfolding configure
  configured_says tenant product entries rows rows' answer e h =
      let (_, e1) = then-ok {check = ensure_no_duplicates [] (map branch_of entries)} e in
      let (_, e2) = then-ok {check = ensure_product d ports product tenant} e1 in
      let (_, e3) = then-ok {check = ensure_branches d ports tenant (map branch_of entries)} e2 in
      let (current, _, e4) = bind-ok {r = find_by_product d ports tenant product rows} e3 in
      let (configs, made, e5) = bind-ok {r = prepare d ports tenant product current 0 entries} e4 in
      let saved =
        save_many-SaysSomething configs rows
          (prepare-IsFilled tenant product current 0 entries configs made) h in
      let same : save_many d ports configs rows ≡ rows' = ground arith in
      subst (All SaysSomething) same saved

  removed_says :
      (tenant product : String) (branches : List String) (rows rows' : List ConfigRow)
      → remove d ports tenant product branches rows ≡ ok rows'
      → All SaysSomething rows
      → All SaysSomething rows'
  unfolding remove
  removed_says tenant product branches rows rows' e h =
      let (_, e1) = then-ok {check = ensure_no_duplicates [] branches} e in
      let (current, _, e2) = bind-ok {r = find_by_product d ports tenant product rows} e1 in
      let (ids, _, e3) = bind-ok {r = find_to_remove d ports product current branches} e2 in
      let same : delete_many ids tenant rows ≡ rows' = ground arith in
      subst (All SaysSomething) same (delete_many-SaysSomething ids tenant rows h)

  step_says :
      {rows rows' : List ConfigRow}
      → Step d ports rows rows'
      → All SaysSomething rows
      → All SaysSomething rows'
  step_says {rows} {rows'} (configured tenant product entries answer e) h =
      configured_says tenant product entries rows rows' answer e h
  step_says {rows} {rows'} (removed tenant product branches e) h =
      removed_says tenant product branches rows rows' e h

  -- Through any sequence of configurations and removals that succeed, a table keeps that each row
  -- has a price or an availability.
  pub configs_say_something :
      {rows rows' : List ConfigRow}
      → Steps d ports rows rows'
      → All SaysSomething rows
      → All SaysSomething rows'
  configs_say_something start h = h
  configs_say_something (then_step s rest) h = configs_say_something rest (step_says s h)
