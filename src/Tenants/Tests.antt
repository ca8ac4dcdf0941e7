-- ===== src/Tenants/Tests.antt =====
-- The requests on tenants at a concrete table.
use komi_saas_api.Tenants.Table as Table
use komi_saas_api.Tenants.Tenant as Tenant
use komi_saas_api.Base.{
  trim, utf16_length, trim, utf16_length, trim, utf16_length, trim, utf16_length, trim,
  utf16_length, trim, utf16_length, some, none, true, false, [], ◌∷◌, map, str_eq, ◌≡◌, ◌≢◌, refl,
  All, utf16_length, trim,
}
use komi_saas_api.Base.Throws.{ok, err}
use komi_saas_api.Tenants.Tenant.{
  create_name, TenantData, create_slug, create_nit, invalid_slug, slug_pattern, slug_exists,
}
use komi_saas_api.Tenants.Table.{
  exists_by_slug, search_aggregate_by_id, search_aggregate_by_id, save, exists_by_slug,
  exists_by_name, search_aggregate_by_nit, TenantRow, Ports, search_all, search_by_id, to_response,
}
use komi_saas_api.Tenants.Requests.{create_tenant, update_tenant, delete_tenant}
use komi_saas_api.Tenants.Uniqueness.{IsKept, IsTidy}
use komi_saas_api.Tenants.Uniqueness.Steps.{start, then_step, created, deleted, tenants_stay_apart}
use komi_saas_api.Tenants.Dates as Dates
use komi_saas_api.Tenants.Dates.{moment_of, edits_keep_moments, deleted_nit_stays_taken}

abbrev ports : Ports
ports = record {
  valid_uuid = λ s. true;
  ilike = λ text pattern. str_eq text pattern;
  accepts = λ row rows. true;
}

abbrev cafe : TenantRow
cafe = record {
  id = "t1";
  name = "Café";
  description = "";
  slug = "cafe-1";
  nit = "900123456-7";
  is_active = true;
  is_deleted = false;
  created_at = 3;
  updated_at = 3;
}

abbrev bakery : TenantRow
bakery = record cafe {
  id = "t2";
  name = "Pan";
  slug = "pan";
  nit = "900765432-1";
  created_at = 6;
  updated_at = 6;
}

abbrev bakery_data : TenantData
bakery_data = record { name = "Pan"; description = ""; slug = " pan "; nit = "900765432-1" }

double_dash_example : create_slug "pan--dulce" ≡ err (invalid_slug slug_pattern)
unfolding create_slug utf16_length trim
double_dash_example = refl

create_example : create_tenant ports bakery_data "t2" 6 (cafe ∷ []) ≡ ok (cafe ∷ bakery ∷ [])
unfolding create_tenant create_name utf16_length trim create_slug create_nit search_aggregate_by_nit
    exists_by_name exists_by_slug save Tenant.create
create_example = refl

delete_example :
    delete_tenant ports "t1" 9 (cafe ∷ bakery ∷ [])
    ≡ ok (record cafe { is_active = false; is_deleted = true } ∷ bakery ∷ [])
unfolding delete_tenant search_aggregate_by_id utf16_length trim Tenant.delete Table.update
delete_example = refl

-- A tenant that is sent its own slug is told that it exists.
own_slug_example :
    update_tenant ports "t1"
      (record { name = none; description = none; slug = some "cafe-1"; nit = none })
      9
      (cafe ∷ [])
    ≡ err (slug_exists "cafe-1")
unfolding update_tenant search_aggregate_by_id utf16_length trim exists_by_slug
own_slug_example = refl

-- A deleted tenant is in no list.
list_example :
    search_all (record cafe { is_deleted = true } ∷ bakery ∷ []) ≡ to_response bakery ∷ []
unfolding search_all
list_example = refl

cafe-IsKept : IsKept cafe
unfolding create_slug create_nit utf16_length trim
cafe-IsKept = (refl, refl)

tenants_stay_apart_example :
    IsTidy (record cafe { is_active = false; is_deleted = true } ∷ bakery ∷ [])
tenants_stay_apart_example =
    tenants_stay_apart ports
      (then_step (created bakery_data "t2" 6 refl create_example)
        (then_step (deleted "t1" 9 delete_example) start))
      ((cafe-IsKept, tt), (tt, tt))

edits_keep_moments_example :
    map moment_of (record cafe { is_active = false; is_deleted = true } ∷ bakery ∷ [])
    ≡ map moment_of (cafe ∷ bakery ∷ [])
edits_keep_moments_example = edits_keep_moments ports (Dates.deleted "t1" 9 delete_example)

both-IsKept : All IsKept (cafe ∷ bakery ∷ [])
unfolding create_slug create_nit utf16_length trim
both-IsKept = ((refl, refl), ((refl, refl), tt))

nit_example : create_nit " 900123456-7 " ≡ ok "900123456-7"
unfolding create_nit utf16_length trim
nit_example = refl

deleted_nit_stays_taken_example :
    create_tenant ports
      (record bakery_data { slug = "nuevo"; nit = " 900123456-7 " })
      "t3"
      20
      (record cafe { is_active = false; is_deleted = true } ∷ bakery ∷ [])
    ≢ ok []
deleted_nit_stays_taken_example =
    deleted_nit_stays_taken ports "t1" 9 (cafe ∷ bakery ∷ [])
      (record cafe { is_active = false; is_deleted = true } ∷ bakery ∷ []) [] cafe
      (record bakery_data { slug = "nuevo"; nit = " 900123456-7 " }) "t3" 20 both-IsKept refl
      delete_example nit_example
