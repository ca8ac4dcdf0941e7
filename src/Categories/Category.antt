-- ===== src/Categories/Category.antt =====
-- The category of products (src/context/product-categories/domain/product-category.aggregate.ts), its
-- name and its exceptions. The moment of a change is an argument.
use komi_saas_api.Base.{
  ℕ, String, Option, none, some, Bool, true, false, not, ◌||◌, str_eq, if◌then◌else◌,
}
use komi_saas_api.Base.Throws.{Result, ok, ◌>>◌, throw_if}
use komi_saas_api.Shared.Value.{trimmed_between}

pub data CategoryError : Type 0 where
  invalid_uuid not_found already_exists : String → CategoryError
  already_activated already_deactivated name_too_short name_too_long : CategoryError
  tenant_not_found : String → CategoryError
  tenant_id_required : CategoryError
  -- what the database throws, but for a unique index
  not_stored : CategoryError

pub record Category : Type 0 where
  pub id : String
  pub tenant_id : String
  pub name : String
  pub description : Option String
  pub is_active : Bool
  pub created_at : ℕ
  pub updated_at : ℕ

-- `CategoryName.create`
unfoldable pub create_name : String → Result CategoryError String
create_name = trimmed_between 2 120 CategoryError.name_too_short CategoryError.name_too_long

unfoldable pub create : String → String → Option String → String → ℕ → Category
create tenant_id name description id now = record {
  id = id;
  tenant_id = tenant_id;
  name = name;
  description = description;
  is_active = true;
  created_at = now;
  updated_at = now;
}

unfoldable pub touch : ℕ → Category → Category
touch now c = record c { updated_at = now }

-- `params.name !== undefined && params.name.value !== this.name.value`
unfoldable pub differs : Option String → Option String → Bool
differs none current = false
differs (some given) none = true
differs (some given) (some current) = not (str_eq given current)

abbrev pub given_name : Option String → Category → Category
given_name none c = c
given_name (some name) c = record c { name = name }

abbrev pub given_description : Option String → Category → Category
given_description none c = c
given_description (some text) c = record c { description = some text }

unfoldable pub update : Option String → Option String → ℕ → Category → Category
unfolding differs touch
update name description now c =
    if differs name (some c.name) || differs description c.description
    then touch now (given_description description (given_name name c))
    else c

unfoldable pub activate : ℕ → Category → Result CategoryError Category
unfolding touch
activate now c = do
  throw_if c.is_active CategoryError.already_activated
  ok (touch now (record c { is_active = true }))

unfoldable pub deactivate : ℕ → Category → Result CategoryError Category
unfolding touch
deactivate now c = do
  throw_if (not c.is_active) CategoryError.already_deactivated
  ok (touch now (record c { is_active = false }))
