-- ===== src/Auth/TenantScope.antt =====
-- The guard that keeps a user inside his tenant
-- (src/auth/infrastructure/guards/tenant-scope.guard.ts). A part of a request is a value of
-- JavaScript as the body parser builds it; the fields of an object stand in the order of
-- `Object.entries`.
pub mod Limit
pub mod Reach
use komi_saas_api.Base.{
  ℕ, suc, String, Option, none, some, Bool, List, [], ◌∷◌, ◌++◌, str_eq, ltb, if◌then◌else◌, ◌&&◌,
}
use komi_saas_api.Base.Throws.{Result, ok, err, ◌>>=◌, ◌>>◌, throw_if}
use komi_saas_api.Auth.JwtGuard.{AuthenticatedUser}

mutual
  pub data Value : Type 0 where
    text : String → Value
    -- `null`, `undefined`, a number or a Boolean
    scalar : Value
    arr : Items → Value
    obj : Fields → Value

  pub data Fields : Type 0 where
    end : Fields
    field : String → Value → Fields → Fields

  pub data Items : Type 0 where
    nil : Items
    cons : Value → Items → Items

abbrev pub tenant_key : String
tenant_key = "tenantId"

abbrev pub max_depth : ℕ
max_depth = 6

-- `typeof nested === 'string'`
abbrev pub as_text : Value → Option String
as_text (text s) = some s
as_text _ = none

-- One entry of the loop over an object: a text under the key is kept, anything else searched.
abbrev pub pick : String → Option String → List String → List String
pick key none nested = nested
pick key (some s) nested = if str_eq key tenant_key then s ∷ [] else nested

unfoldable mutual
  pub collect_tenant_ids : ℕ → Value → List String
  collect_tenant_ids depth (text s) = []
  collect_tenant_ids depth scalar = []
  collect_tenant_ids depth (arr xs) =
      if ltb max_depth depth then [] else collect_items (suc depth) xs
  collect_tenant_ids depth (obj fs) =
      if ltb max_depth depth then [] else collect_fields (suc depth) fs

  pub collect_items : ℕ → Items → List String
  collect_items depth nil = []
  collect_items depth (cons x xs) = collect_tenant_ids depth x ++ collect_items depth xs

  pub collect_fields : ℕ → Fields → List String
  collect_fields depth end = []
  collect_fields depth (field key nested fs) =
      pick key (as_text nested) (collect_tenant_ids depth nested) ++ collect_fields depth fs

-- `CrossTenantAccessException`
pub data CrossTenant : Type 0 where
  cross_tenant : String → String → CrossTenant

unfoldable pub check_all : String → List String → Result CrossTenant (Unit {0})
check_all own [] = ok tt
check_all own (requested ∷ rest) =
    if str_eq requested own then check_all own rest else err (cross_tenant own requested)

pub record Request : Type 0 where
  pub params : Value
  pub query : Value
  pub body : Value
  pub user : Option AuthenticatedUser

abbrev pub check_user : Request → Option AuthenticatedUser → Result CrossTenant (Unit {0})
check_user r none = ok tt
check_user r (some user) = do
  check_all user.tenant_id (collect_tenant_ids 0 r.params)
  check_all user.tenant_id (collect_tenant_ids 0 r.query)
  check_all user.tenant_id (collect_tenant_ids 0 r.body)

unfoldable pub can_activate : Bool → Request → Result CrossTenant (Unit {0})
unfolding check_all
can_activate is_public r = if is_public then ok tt else check_user r r.user
