-- ===== src/Categories/Requests.antt =====
-- The requests on categories: the use cases of
-- src/context/product-categories/application/use-cases (create-category and update-category) and the
-- adapter of their port. A request is a function of the rows, to the rows after it.
use komi_saas_api.Base.{ℕ, String, Option, none, some, Bool, true, false, not, List, is_empty}
use komi_saas_api.Base.Throws.{Result, ok, err, ◌>>=◌, ◌>>◌, throw_if}
use komi_saas_api.Shared.Value.{create_uuid}
use komi_saas_api.Categories.Category as Category_ops
use komi_saas_api.Categories.Category.{
  CategoryError, invalid_uuid, not_found, already_exists, tenant_not_found, tenant_id_required,
  Category, create_name,
}
use komi_saas_api.Categories.Table as Table
use komi_saas_api.Categories.Table.{CategoryRow, Ports, find_by_id, exists_by_name, save}

-- `UpdateCategoryApplicationParams`; what is left out is `none`.
pub record UpdateParams : Type 0 where
  pub tenant_id : String
  pub name : Option String
  pub description : Option String
  pub is_active : Option Bool

unfoldable pub or_not_found : String → Option Category → Result CategoryError Category
or_not_found id none = err (not_found id)
or_not_found id (some c) = ok c

unfoldable pub set_active : Option Bool → ℕ → Category → Result CategoryError Category
set_active none now c = ok c
set_active (some true) now c = Category_ops.activate now c
set_active (some false) now c = Category_ops.deactivate now c

module _ (ports : Ports) where
  -- `TenantCheckerAdapter.exists`, and the throw where it is false.
  unfoldable pub ensure_tenant : String → Result CategoryError (Unit {0})
  unfolding create_uuid
  ensure_tenant tenant = do
    id ← create_uuid ports.valid_uuid invalid_uuid tenant
    throw_if (not (ports.tenant_found id)) (tenant_not_found tenant)

  -- `CreateCategoryUseCase.execute`
  unfoldable pub create_category :
      String
      → String
      → Option String
      → String
      → ℕ
      → List CategoryRow
      → Result CategoryError (List CategoryRow)
  unfolding ensure_tenant
  create_category tenant raw description id now rows = do
    ensure_tenant tenant
    name ← create_name raw
    throw_if (exists_by_name ports name tenant none rows) (already_exists name)
    save ports (Category_ops.create tenant name description id now) rows

  -- The name that is asked for, which no other category of the tenant may have.
  unfoldable pub changed_name :
      String → String → Option String → List CategoryRow → Result CategoryError (Option String)
  changed_name id tenant none rows = ok none
  changed_name id tenant (some raw) rows = do
    name ← create_name raw
    throw_if (exists_by_name ports name tenant (some id) rows) (already_exists name)
    ok (some name)

  -- `UpdateCategoryUseCase.execute`
  unfoldable pub update_category :
      String → UpdateParams → ℕ → List CategoryRow → Result CategoryError (List CategoryRow)
  unfolding ensure_tenant changed_name set_active or_not_found
  update_category id params now rows = do
    throw_if (is_empty params.tenant_id) tenant_id_required
    ensure_tenant params.tenant_id
    found ← find_by_id ports id params.tenant_id rows
    c ← or_not_found id found
    name ← changed_name id params.tenant_id params.name rows
    changed ← set_active params.is_active now (Category_ops.update name params.description now c)
    Table.update ports changed now rows
