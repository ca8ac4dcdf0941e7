-- ===== src/Auth/GuardTests.antt =====
-- The theorems on the guards at concrete requests.
use komi_saas_api.Base.{String, none, some, false, [], ◌∷◌, ◌≡◌, refl, inr, inl, ◌⊎◌, sym}
use komi_saas_api.Base.Throws.{ok, err}
use komi_saas_api.Auth.Session.{Reason}
use komi_saas_api.Auth.Store.{find_by_id, revoke_all_by_user}
use komi_saas_api.Auth.Samples.{live}
use komi_saas_api.Auth.JwtGuard as Jwt
use komi_saas_api.Auth.JwtGuard.{
  session_closed, Payload, Verified, payload, AuthenticatedUser, extract_token,
  to_authenticated_user,
}
use komi_saas_api.Auth.JwtGuard.Access.{revocation_is_immediate}
use komi_saas_api.Auth.TenantScope.{
  Value, scalar, text, obj, arr, cons, nil, field, end, can_activate, Request, tenant_key,
  collect_tenant_ids,
}
use komi_saas_api.Auth.TenantScope.Limit.{deep_tenants_pass}
use komi_saas_api.Auth.TenantScope.Reach.{
  within_tenant, collected, In, Occurs, in_object, under_key, nested,
}

abbrev signed : Payload
signed = record {
  sub = Jwt.text "u1";
  tenant_id = Jwt.text "t1";
  branch_id = Jwt.null;
  rol_scope = Jwt.text "TENANT";
  jti = Jwt.text "s1";
}

abbrev user : AuthenticatedUser
user = record {
  user_id = "u1";
  tenant_id = "t1";
  branch_id = none;
  rol_scope = "TENANT";
  session_id = "s1";
}

abbrev bearer : Jwt.Request
bearer = record { access_cookie = none; authorization = some "Bearer abc" }

abbrev lower : String → String
lower s = "bearer"

abbrev accept_all : String → Verified
accept_all t = payload signed

revocation_is_immediate_example :
    Jwt.can_activate lower accept_all false
      (revoke_all_by_user "u1" Reason.logout 9 (live ∷ []))
      bearer
    ≡ err session_closed
unfolding extract_token to_authenticated_user find_by_id
revocation_is_immediate_example =
    revocation_is_immediate lower accept_all (live ∷ []) bearer "abc" signed user live Reason.logout
      9 refl refl refl refl refl λ e. absurd (cc e)

abbrev request : Request
request = record {
  params = scalar;
  query = scalar;
  body = obj (field "data" (obj (field tenant_key (text "t1") end)) end);
  user = some user;
}

within_tenant_example : "t1" ≡ user.tenant_id
unfolding can_activate collect_tenant_ids
within_tenant_example =
    within_tenant request user "t1" refl refl
      (inr (inr (in_object (nested {n = 6} (in_object {n = 5} under_key)))))

abbrev foreign : Value
foreign = obj (field tenant_key (text "t2") end)

named : (t : String) → In t ("t1" ∷ []) → t ≡ "t1"
named t (inl e) = sym e
named t (inr none_else) = absurd none_else

-- A body that names the user's tenant, and another one eight containers deep.
abbrev deep : Request
deep = record {
  params = obj end;
  query = obj end;
  body = obj (
      field tenant_key (text "t1") (
        field "items"
          (arr (
            cons
              (obj (
                field "a"
                  (obj (
                    field "b"
                      (obj (field "c" (obj (field "d" (obj (field "e" foreign end)) end)) end))
                      end))
                  end))
              nil))
          end));
  user = some user;
}

deep_names_own :
    (t : String)
    → Occurs 7 deep.params t ⊎ Occurs 7 deep.query t ⊎ Occurs 7 deep.body t
    → t ≡ user.tenant_id
unfolding collect_tenant_ids
deep_names_own t (inl o) = absurd (collected 7 0 deep.params t o refl)
deep_names_own t (inr (inl o)) = absurd (collected 7 0 deep.query t o refl)
deep_names_own t (inr (inr o)) = named t (collected 7 0 deep.body t o refl)

deep_tenants_pass_example : can_activate false deep ≡ ok tt
deep_tenants_pass_example = deep_tenants_pass deep user refl deep_names_own
