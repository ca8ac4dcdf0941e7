-- ===== src/Categories/Table.antt =====
-- The table of the categories (src/context/product-categories/infrastructure/persistence): the rows, the
-- mapper and the repository. Whether the database takes a row is a parameter.
use komi_saas_api.Base.{
  ℕ, String, Option, none, some, Bool, not, ◌&&◌, ◌||◌, List, [], ◌∷◌, ◌++◌, map, find, any,
  is_empty, str_eq, if◌then◌else◌,
}
use komi_saas_api.Base.Throws.{Result, ok, err, ◌>>=◌}
use komi_saas_api.Shared.Value.{create_uuid}
use komi_saas_api.Categories.Category.{
  CategoryError, invalid_uuid, already_exists, not_stored, Category, create_name,
}

-- `ProductCategoryEntity`, and `CategoryPrimitives`, which has the same fields.
pub record CategoryRow : Type 0 where
  pub id : String
  pub tenant_id : String
  pub name : String
  pub description : Option String
  pub is_active : Bool
  pub created_at : ℕ
  pub updated_at : ℕ

-- What the database answers to an insert or an update: done, a unique index is violated, or another error.
pub data Outcome : Type 0 where
  stored unique_violation failed : Outcome

-- The test of the uuid package, the database's `LOWER`, whether a tenant is found, and the answers of the
-- database to a row that is written to the rows there are.
pub record Ports : Type 0 where
  pub valid_uuid : String → Bool
  pub sql_lower : String → String
  pub tenant_found : String → Bool
  pub on_insert : CategoryRow → List CategoryRow → Outcome
  pub on_update : CategoryRow → List CategoryRow → Outcome

-- `ProductCategoryMapper.toEntity`, and `toPrimitives`.
unfoldable pub to_entity : Category → CategoryRow
to_entity c = record {
  id = c.id;
  tenant_id = c.tenant_id;
  name = c.name;
  description = c.description;
  is_active = c.is_active;
  created_at = c.created_at;
  updated_at = c.updated_at;
}

abbrev pub same_key : String → String → CategoryRow → Bool
same_key id tenant row = str_eq row.id id && str_eq row.tenant_id tenant

-- The row of the key is written over, but for the moment of its creation.
abbrev pub written : Category → ℕ → CategoryRow → CategoryRow
written c now row =
    if same_key c.id c.tenant_id row
    then record row {
      name = c.name;
      description = c.description;
      is_active = c.is_active;
      updated_at = now;
    }
    else row

-- A unique index that is violated is told as a name that exists.
unfoldable pub settle :
    String → Outcome → List CategoryRow → Result CategoryError (List CategoryRow)
settle name Outcome.stored rows = ok rows
settle name Outcome.unique_violation rows = err (already_exists name)
settle name Outcome.failed rows = err not_stored

-- `excludeId ? … : …`
abbrev pub is_other : Option String → CategoryRow → Bool
is_other none row = Bool.true
is_other (some id) row = is_empty id || not (str_eq row.id id)

module _ (ports : Ports) where
  -- `ProductCategoryMapper.toDomain`, and `fromPrimitives`.
  unfoldable pub to_domain : CategoryRow → Result CategoryError Category
  unfolding create_uuid create_name
  to_domain row = do
    id ← create_uuid ports.valid_uuid invalid_uuid row.id
    name ← create_name row.name
    ok (record {
      id = id;
      tenant_id = row.tenant_id;
      name = name;
      description = row.description;
      is_active = row.is_active;
      created_at = row.created_at;
      updated_at = row.updated_at;
    })

  abbrev pub optional_domain : Option CategoryRow → Result CategoryError (Option Category)
  optional_domain none = ok none
  optional_domain (some row) = to_domain row >>= λ c. ok (some c)

  unfoldable pub find_by_id :
      String → String → List CategoryRow → Result CategoryError (Option Category)
  unfolding to_domain
  find_by_id id tenant rows = optional_domain (find (same_key id tenant) rows)

  abbrev pub has_name : String → String → CategoryRow → Bool
  has_name name tenant row =
      str_eq row.tenant_id tenant && str_eq (ports.sql_lower row.name) (ports.sql_lower name)

  unfoldable pub exists_by_name : String → String → Option String → List CategoryRow → Bool
  exists_by_name name tenant exclude_id rows =
      any (λ row. has_name name tenant row && is_other exclude_id row) rows

  unfoldable pub save : Category → List CategoryRow → Result CategoryError (List CategoryRow)
  unfolding to_entity settle
  save c rows = settle c.name (ports.on_insert (to_entity c) rows) (rows ++ to_entity c ∷ [])

  -- `update`, at the database's moment `now`.
  unfoldable pub update : Category → ℕ → List CategoryRow → Result CategoryError (List CategoryRow)
  unfolding to_entity settle
  update c now rows = settle c.name (ports.on_update (to_entity c) rows) (map (written c now) rows)
