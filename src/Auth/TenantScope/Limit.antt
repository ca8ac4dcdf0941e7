-- ===== src/Auth/TenantScope/Limit.antt =====
-- What the guard does not see: a text that stands deeper than its search goes.
use komi_saas_api.Base.{
  ℕ, zero, suc, ◌+◌, String, some, none, true, false, List, [], ◌∷◌, ◌++◌, eq_iff, ◌≡◌, refl, ◌⊎◌,
  inl, inr, arith, ltb, Option, Bool-cases, str_eq, subst, sym, ap,
}
use komi_saas_api.Base.Throws.{ok}
use komi_saas_api.Auth.JwtGuard.{AuthenticatedUser}
use komi_saas_api.Auth.TenantScope.{
  Value, text, scalar, arr, obj, Items, nil, cons, Fields, field, end, tenant_key,
  collect_tenant_ids, collect_items, collect_fields, check_all, Request, can_activate, pick,
  as_text,
}
use komi_saas_api.Auth.TenantScope.Reach.{
  Occurs, OccursItems, OccursFields, in_array, in_object, first, later, under_key, nested, further,
  In,
}

In-append : (t : String) (xs ys : List String) → In t (xs ++ ys) → In t xs ⊎ In t ys
In-append t [] ys h = inr h
In-append t (x ∷ xs) ys (inl e) = inl (inl e)
In-append t (x ∷ xs) ys (inr h) = elim (In-append t xs ys h) [
  | inl left ↦ inl (inr left)
  | inr right ↦ inr right
]

in_reach : (n d : ℕ) → suc n + d ≡ 7 → ltb 6 d ≡ false
in_reach n d e = ground arith

only : (t s : String) → In t (s ∷ []) → s ≡ t
only t s (inl e) = e
only t s (inr none_else) = absurd none_else

-- A text that is kept of an entry stands under the key, or within the entry.
In-pick_cases :
    (t key : String) (given : Option String) (ids : List String)
    → In t (pick key given ids)
    → ((key ≡ tenant_key) × (given ≡ some t)) ⊎ In t ids
In-pick_cases t key none ids h = inr h
In-pick_cases t key (some s) ids h = elim (Bool-cases (str_eq key tenant_key)) [
  | inl under ↦ inl (ground (arith, eq_iff key tenant_key), ap some (only t s (rw under at h)))
  | inr other ↦ inr (rw other at h)
]

as_text_lem : (v : Value) (t : String) → as_text v ≡ some t → v ≡ text t
as_text_lem (text s) t e = ground arith
as_text_lem scalar t e = ground arith
as_text_lem (arr xs) t e = ground arith
as_text_lem (obj fs) t e = ground arith

out_of_reach : (d : ℕ) → 0 + d ≡ 7 → ltb 6 d ≡ true
out_of_reach d e = ground arith

mutual
  unfolding collect_tenant_ids collect_items collect_fields

  occurs :
      (n d : ℕ) (v : Value) (t : String) → n + d ≡ 7 → In t (collect_tenant_ids d v) → Occurs n v t
  occurs n d (text s) t e h = absurd h
  occurs n d scalar t e h = absurd h
  occurs zero d (arr xs) t e h = absurd (rw (out_of_reach d e) at h)
  occurs zero d (obj fs) t e h = absurd (rw (out_of_reach d e) at h)
  occurs (suc n) d (arr xs) t e h =
      in_array (occurs_items n (suc d) xs t (omega arith) (rw (in_reach n d e) at h))
  occurs (suc n) d (obj fs) t e h =
      in_object (occurs_fields n (suc d) fs t (omega arith) (rw (in_reach n d e) at h))

  occurs_items :
      (n d : ℕ) (xs : Items) (t : String)
      → n + d ≡ 7
      → In t (collect_items d xs)
      → OccursItems n xs t
  occurs_items n d nil t e h = absurd h
  occurs_items n d (cons x xs) t e h =
      elim (In-append t (collect_tenant_ids d x) (collect_items d xs) h) [
        | inl here ↦ first (occurs n d x t e here)
        | inr there ↦ later (occurs_items n d xs t e there)
      ]

  occurs_fields :
      (n d : ℕ) (fs : Fields) (t : String)
      → n + d ≡ 7
      → In t (collect_fields d fs)
      → OccursFields n fs t
  occurs_fields n d end t e h = absurd h
  occurs_fields n d (field key v fs) t e h =
      elim (In-append t (pick key (as_text v) (collect_tenant_ids d v)) (collect_fields d fs) h) [
        | inl here ↦ elim (In-pick_cases t key (as_text v) (collect_tenant_ids d v) here) [
          | inl (under, said) ↦
              subst (λ k. OccursFields n (field k v fs) t) (sym under)
                (subst (λ w. OccursFields n (field tenant_key w fs) t) (sym (as_text_lem v t said))
                  under_key)
          | inr within ↦ nested (occurs n d v t e within)
        ]
        | inr there ↦ further (occurs_fields n d fs t e there)
      ]

check_all_complete :
    (own : String) (ids : List String)
    → ((t : String) → In t ids → t ≡ own)
    → check_all own ids ≡ ok tt
unfolding check_all
check_all_complete own [] h = refl
check_all_complete own (x ∷ xs) h =
    let same = h x (inl refl) in
    let rest = check_all_complete own xs (λ t i. h t (inr i)) in ground (arith, eq_iff x own)

-- A request of a user passes the guard where each text under the key tenantId in its parameters,
-- query or body, within seven containers of one another, is the tenant of the user, whatever
-- tenants stand deeper.
pub deep_tenants_pass :
    (r : Request) (user : AuthenticatedUser)
    → r.user ≡ some user
    → ((t : String)
        → Occurs 7 r.params t ⊎ Occurs 7 r.query t ⊎ Occurs 7 r.body t
        → t ≡ user.tenant_id)
    → can_activate false r ≡ ok tt
unfolding can_activate
deep_tenants_pass r user hu h =
    let params =
      check_all_complete user.tenant_id (collect_tenant_ids 0 r.params)
        (λ t i. h t (inl (occurs 7 0 r.params t refl i))) in
    let query =
      check_all_complete user.tenant_id (collect_tenant_ids 0 r.query)
        (λ t i. h t (inr (inl (occurs 7 0 r.query t refl i)))) in
    let body =
      check_all_complete user.tenant_id (collect_tenant_ids 0 r.body)
        (λ t i. h t (inr (inr (occurs 7 0 r.body t refl i)))) in
    rw (hu, params, query, body) refl
