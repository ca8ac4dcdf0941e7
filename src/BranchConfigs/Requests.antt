-- ===== src/BranchConfigs/Requests.antt =====
-- The requests on configurations: configure-product-branch.use-case.ts and
-- remove-product-branch-config.use-case.ts, the repository and the adapters of
-- src/context/product-branch-config. An object that the code changes in place is in one entry only, since
-- a branch that is repeated is refused.
use komi_saas_api.Base.{
  ℕ, suc, String, Option, none, some, Bool, not, ◌&&◌, List, [], ◌∷◌, filter, any, str_eq, or_else,
  if◌then◌else◌, map,
}
use komi_saas_api.Base.Throws.{Result, ok, err, ◌>>=◌, ◌>>◌, throw_if}
use komi_saas_api.Shared.Decimal.{Decimal}
use komi_saas_api.Shared.Money.{Money}
use komi_saas_api.Shared.Money as Money_ops
use komi_saas_api.BranchConfigs.Config.{
  ConfigError, duplicate_branch, product_not_found, branch_not_found, config_not_found, lift_shared,
  create_id, Config, ConfigRow, create, change, to_domain, to_persistence,
}

-- `ProductBranchConfigEntry`; `none` is a key that is left out, `some none` is `null`.
pub record Entry : Type 0 where
  pub branch_id : String
  pub price : Option (Option String)
  pub is_available : Option (Option Bool)

-- The test of the uuid package, JavaScript's `toUpperCase`, the other contexts, the order of the query
-- (by moment of creation and id), and the ids and moments that the entries draw and read.
pub record Ports : Type 0 where
  pub valid_uuid : String → Bool
  pub upper_case : String → String
  pub product_in_tenant : String → String → Bool
  pub branch_in_tenant : String → String → Bool
  pub order_by : List ConfigRow → List ConfigRow
  pub ids : ℕ → String
  pub clocks : ℕ → ℕ

-- `ensureNoDuplicates`
unfoldable pub ensure_no_duplicates : List String → List String → Result ConfigError (Unit {0})
ensure_no_duplicates seen [] = ok tt
ensure_no_duplicates seen (b ∷ bs) =
    throw_if (any (str_eq b) seen) (duplicate_branch b) >> ensure_no_duplicates (b ∷ seen) bs

abbrev pub is_of_product : String → String → ConfigRow → Bool
is_of_product tenant product row = str_eq row.tenant_id tenant && str_eq row.product_id product

abbrev pub branch_of : Entry → String
branch_of entry = entry.branch_id

-- `deleteMany`
unfoldable pub delete_many : List String → String → List ConfigRow → List ConfigRow
delete_many ids tenant rows =
    filter (λ row. not (any (str_eq row.id) ids && str_eq row.tenant_id tenant)) rows

-- One row of `save`, by its primary key.
abbrev pub put_row : ConfigRow → List ConfigRow → List ConfigRow
put_row row [] = row ∷ []
put_row row (r ∷ rows) = if str_eq r.id row.id then row ∷ rows else r ∷ put_row row rows

module _ (d : Decimal) (ports : Ports) where
  abbrev pub all_to_domain : List ConfigRow → Result ConfigError (List (Config d))
  all_to_domain [] = ok []
  all_to_domain (row ∷ rows) = do
    config ← to_domain ports.valid_uuid ports.upper_case row
    configs ← all_to_domain rows
    ok (config ∷ configs)

  unfoldable pub find_by_product :
      String → String → List ConfigRow → Result ConfigError (List (Config d))
  unfolding to_domain
  find_by_product tenant product rows =
      all_to_domain (ports.order_by (filter (is_of_product tenant product) rows))

  -- `new Map(current.map(…)).get(branch)`: the last of a branch.
  unfoldable pub of_branch : String → List (Config d) → Option (Config d)
  of_branch branch [] = none
  of_branch branch (c ∷ cs) = elim (of_branch branch cs) [
    | some later ↦ some later
    | none ↦ if str_eq c.branch_id branch then some c else none
  ]

  abbrev pub to_money : Option String → Result ConfigError (Option (Money d))
  to_money none = ok none
  to_money (some price) =
      lift_shared (Money_ops.of d ports.upper_case price "COP") >>= λ m. ok (some m)

  abbrev pub given_money : Option (Option String) → Result ConfigError (Option (Option (Money d)))
  given_money none = ok none
  given_money (some price) = to_money price >>= λ m. ok (some m)

  -- `applyChanges` of what is there, `createConfig` of what is not.
  unfoldable pub apply_entry :
      String → String → Entry → ℕ → Option (Config d) → Result ConfigError (Config d)
  unfolding change create
  apply_entry tenant product entry k (some existing) =
      given_money entry.price >>= λ price. change price entry.is_available (ports.clocks k) existing
  apply_entry tenant product entry k none = to_money (or_else entry.price none) >>= λ price.
      create tenant product entry.branch_id price (or_else entry.is_available none) (ports.ids k)
        (ports.clocks k)

  -- `prepareConfigs`, over the entries.
  unfoldable pub prepare :
      String → String → List (Config d) → ℕ → List Entry → Result ConfigError (List (Config d))
  unfolding of_branch apply_entry
  prepare tenant product current k [] = ok []
  prepare tenant product current k (entry ∷ entries) = do
    config ← apply_entry tenant product entry k (of_branch entry.branch_id current)
    configs ← prepare tenant product current (suc k) entries
    ok (config ∷ configs)

  unfoldable pub save_many : List (Config d) → List ConfigRow → List ConfigRow
  unfolding to_persistence
  save_many [] rows = rows
  save_many (c ∷ cs) rows = save_many cs (put_row (to_persistence c) rows)

  unfoldable pub ensure_branches : String → List String → Result ConfigError (Unit {0})
  unfolding create_id
  ensure_branches tenant [] = ok tt
  ensure_branches tenant (b ∷ bs) = do
    id ← create_id ports.valid_uuid b
    throw_if (not (ports.branch_in_tenant id tenant)) (branch_not_found b)
    ensure_branches tenant bs

  unfoldable pub ensure_product : String → String → Result ConfigError (Unit {0})
  unfolding create_id
  ensure_product product tenant = do
    id ← create_id ports.valid_uuid product
    throw_if (not (ports.product_in_tenant id tenant)) (product_not_found product)

  -- `ConfigureProductBranchUseCase.execute`: the rows, and what the response reads from them.
  unfoldable pub configure :
      String
      → String
      → List Entry
      → List ConfigRow
      → Result ConfigError (List ConfigRow × Result ConfigError (List (Config d)))
  unfolding ensure_no_duplicates ensure_product ensure_branches find_by_product prepare save_many
  configure tenant product entries rows = do
    ensure_no_duplicates [] (map branch_of entries)
    ensure_product product tenant
    ensure_branches tenant (map branch_of entries)
    current ← find_by_product tenant product rows
    configs ← prepare tenant product current 0 entries
    ok (save_many configs rows, find_by_product tenant product (save_many configs rows))

  unfoldable pub find_to_remove :
      String → List (Config d) → List String → Result ConfigError (List String)
  unfolding of_branch
  find_to_remove product current [] = ok []
  find_to_remove product current (b ∷ bs) = elim (of_branch b current) [
    | none ↦ err (config_not_found product b)
    | some config ↦ find_to_remove product current bs >>= λ ids. ok (config.id ∷ ids)
  ]

  -- `RemoveProductBranchConfigUseCase.execute`
  unfoldable pub remove :
      String → String → List String → List ConfigRow → Result ConfigError (List ConfigRow)
  unfolding ensure_no_duplicates find_by_product find_to_remove delete_many
  remove tenant product branches rows = do
    ensure_no_duplicates [] branches
    current ← find_by_product tenant product rows
    ids ← find_to_remove product current branches
    ok (delete_many ids tenant rows)
