-- ===== src/Tenants/Tenant.antt =====
-- The tenant (src/context/tenants/domain/tenant.aggregate.ts), its value objects and its exceptions. The
-- moment of a change is an argument.
use Prim.Native.Char.{Char, code}
use komi_saas_api.Base.{
  ℕ, String, Option, Bool, true, false, not, ◌&&◌, ◌||◌, ltb, leb, ◌==◌, List, [], ◌∷◌, trim,
  utf16_length, or_else,
}
use komi_saas_api.Base.Throws.{Result, ok, ◌>>◌, throw_if}
use komi_saas_api.Shared.Value.{trimmed_between}

pub data TenantError : Type 0 where
  invalid_uuid invalid_nit invalid_name invalid_slug invalid_description : String → TenantError
  nit_exists name_exists slug_exists tenant_not_found : String → TenantError
  -- the plain `Error` of `desactivate`, `activate` and `delete`
  is_inactive_already is_active_already is_deleted_already : TenantError
  -- what the database throws
  not_stored : TenantError

-- `TenantCreatedEvent`
pub record TenantCreated : Type 0 where
  pub tenant_id : String
  pub name : String
  pub description : String
  pub slug : String
  pub nit : String
  pub is_active : Bool

pub record Tenant : Type 0 where
  pub id : String
  pub name : String
  pub description : String
  pub slug : String
  pub nit : String
  pub is_active : Bool
  pub is_deleted : Bool
  pub created_at : ℕ
  pub updated_at : ℕ
  pub domain_events : List TenantCreated

abbrev pub in_range : ℕ → ℕ → Char → Bool
in_range low high c = leb low (code c) && leb (code c) high

-- `[a-z0-9]`
abbrev pub is_slug_char : Char → Bool
is_slug_char c = in_range 97 122 c || in_range 48 57 c

-- What is left of `^[a-z0-9]+(?:-[a-z0-9]+)*$`, after a letter (`true`) or where one has to come.
unfoldable pub slug_rest : Bool → String → Bool
slug_rest after String.[] = after
slug_rest after (String.◌∷◌ c s) =
    (is_slug_char c || (after && code c == 45)) && slug_rest (is_slug_char c) s

-- `[A-Za-z0-9./-]`
abbrev pub is_nit_char : Char → Bool
is_nit_char c = in_range 65 90 c || is_slug_char c || code c == 46 || code c == 47 || code c == 45

unfoldable pub all_nit_chars : String → Bool
all_nit_chars String.[] = true
all_nit_chars (String.◌∷◌ c s) = is_nit_char c && all_nit_chars s

-- `TenantName.create`
unfoldable pub create_name : String → Result TenantError String
unfolding trimmed_between
create_name =
    trimmed_between 2 30 (TenantError.invalid_name "mínimo 2 caracteres")
      (TenantError.invalid_name "máximo 30 caracteres")

-- `TenantDescription.create`
unfoldable pub create_description : String → Result TenantError String
create_description raw = do
  let value = trim raw
  throw_if (ltb 255 (utf16_length value)) (TenantError.invalid_description "máximo 255 caracteres")
  ok value

abbrev pub slug_pattern : String
slug_pattern = "solo se permiten letras minúsculas, números y guiones medios"

-- `TenantSlug.create`
unfoldable pub create_slug : String → Result TenantError String
unfolding slug_rest
create_slug raw = do
  let value = trim raw
  throw_if (ltb (utf16_length value) 3) (TenantError.invalid_slug "mínimo 3 caracteres")
  throw_if (ltb 100 (utf16_length value)) (TenantError.invalid_slug "máximo 100 caracteres")
  throw_if (not (slug_rest false value)) (TenantError.invalid_slug slug_pattern)
  ok value

abbrev pub nit_pattern : String
nit_pattern = "solo puede contener letras, números, punto (.), guion (-) y barra (/)"

-- `TenantNit.create`; the pattern also refuses the empty text, which is too short.
unfoldable pub create_nit : String → Result TenantError String
unfolding all_nit_chars
create_nit raw = do
  let value = trim raw
  throw_if (ltb (utf16_length value) 8) (TenantError.invalid_nit "debe tener al menos 8 caracteres")
  throw_if (ltb 15 (utf16_length value))
      (TenantError.invalid_nit "debe tener como máximo 15 caracteres")
  throw_if (not (all_nit_chars value)) (TenantError.invalid_nit nit_pattern)
  ok value

-- The values of `create`.
pub record TenantData : Type 0 where
  pub name : String
  pub description : String
  pub slug : String
  pub nit : String

-- The parameters of `update`; a key that is left out is `none`.
pub record Changes : Type 0 where
  pub name : Option String
  pub description : Option String
  pub slug : Option String
  pub nit : Option String

unfoldable pub create : TenantData → String → ℕ → Tenant
create given id now = record {
  id = id;
  name = given.name;
  description = given.description;
  slug = given.slug;
  nit = given.nit;
  is_active = true;
  is_deleted = false;
  created_at = now;
  updated_at = now;
  domain_events =
      record {
        tenant_id = id;
        name = given.name;
        description = given.description;
        slug = given.slug;
        nit = given.nit;
        is_active = true;
      }
      ∷ [];
}

unfoldable pub touch : ℕ → Tenant → Tenant
touch now t = record t { updated_at = now }

unfoldable pub update : Changes → ℕ → Tenant → Tenant
unfolding touch
update p now t = touch now (record t {
  name = or_else p.name t.name;
  description = or_else p.description t.description;
  slug = or_else p.slug t.slug;
  nit = or_else p.nit t.nit;
})

unfoldable pub desactivate : Tenant → Result TenantError Tenant
desactivate t = do
  throw_if (not t.is_active) TenantError.is_inactive_already
  ok (record t { is_active = false })

unfoldable pub activate : Tenant → Result TenantError Tenant
activate t = do
  throw_if t.is_active TenantError.is_active_already
  ok (record t { is_active = true })

unfoldable pub delete : ℕ → Tenant → Result TenantError Tenant
unfolding touch
delete now t = do
  throw_if t.is_deleted TenantError.is_deleted_already
  ok (touch now (record t { is_deleted = true; is_active = false }))
