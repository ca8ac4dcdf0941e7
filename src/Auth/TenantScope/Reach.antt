-- ===== src/Auth/TenantScope/Reach.antt =====
-- How far the guard sees.
use komi_saas_api.Base.{
  ℕ, suc, ◌+◌, String, some, false, List, [], ◌∷◌, ◌++◌, eq_iff, ◌≡◌, refl, ◌⊎◌, inl, inr, arith,
  ltb,
}
use komi_saas_api.Base.Throws.{ok}
use komi_saas_api.Auth.JwtGuard.{AuthenticatedUser}
use komi_saas_api.Auth.TenantScope.{
  Value, text, scalar, arr, obj, Items, cons, Fields, field, tenant_key, collect_tenant_ids,
  collect_items, collect_fields, check_all, Request, can_activate, pick, as_text,
}

-- `Occurs n v t`: the text `t` stands under the key `tenantId` somewhere in `v`, within `n` containers
-- of one another.
mutual
  pub data Occurs : ℕ → Value → String → Type 0 where
    in_array : {n : ℕ} {xs : Items} {t : String} → OccursItems n xs t → Occurs (suc n) (arr xs) t
    in_object : {n : ℕ} {fs : Fields} {t : String} → OccursFields n fs t → Occurs (suc n) (obj fs) t

  pub data OccursItems : ℕ → Items → String → Type 0 where
    first :
        {n : ℕ} {x : Value} {xs : Items} {t : String} → Occurs n x t → OccursItems n (cons x xs) t
    later :
        {n : ℕ} {x : Value} {xs : Items} {t : String}
        → OccursItems n xs t
        → OccursItems n (cons x xs) t

  pub data OccursFields : ℕ → Fields → String → Type 0 where
    under_key : {n : ℕ} {fs : Fields} {t : String} → OccursFields n (field tenant_key (text t) fs) t
    nested :
        {n : ℕ} {key : String} {v : Value} {fs : Fields} {t : String}
        → Occurs n v t
        → OccursFields n (field key v fs) t
    further :
        {n : ℕ} {key : String} {v : Value} {fs : Fields} {t : String}
        → OccursFields n fs t
        → OccursFields n (field key v fs) t

-- A text is in a list of them.
abbrev pub In : String → List String → Type 0
In t [] = ⊥
In t (x ∷ xs) = (x ≡ t) ⊎ In t xs

In-append_left : (t : String) (xs ys : List String) → In t xs → In t (xs ++ ys)
In-append_left t (x ∷ xs) ys (inl e) = inl e
In-append_left t (x ∷ xs) ys (inr h) = inr (In-append_left t xs ys h)
In-append_left t [] ys h = absurd h

In-append_right : (t : String) (xs ys : List String) → In t ys → In t (xs ++ ys)
In-append_right t [] ys h = h
In-append_right t (x ∷ xs) ys h = inr (In-append_right t xs ys h)

In-pick :
    (t key : String) (d : ℕ) (v : Value)
    → In t (collect_tenant_ids d v)
    → In t (pick key (as_text v) (collect_tenant_ids d v))
unfolding collect_tenant_ids
In-pick t key d (text s) h = absurd h
In-pick t key d scalar h = h
In-pick t key d (arr xs) h = h
In-pick t key d (obj fs) h = h

in_reach : (n d : ℕ) → suc n + d ≡ 7 → ltb 6 d ≡ false
in_reach n d e = ground arith

mutual
  unfolding collect_tenant_ids collect_items collect_fields

  pub collected :
      (n d : ℕ) (v : Value) (t : String) → Occurs n v t → n + d ≡ 7 → In t (collect_tenant_ids d v)
  collected _ d _ t (in_array {n} {xs} o) e =
      rw (in_reach n d e) (collected_items n (suc d) xs t o (omega arith))
  collected _ d _ t (in_object {n} {fs} o) e =
      rw (in_reach n d e) (collected_fields n (suc d) fs t o (omega arith))

  collected_items :
      (n d : ℕ) (xs : Items) (t : String)
      → OccursItems n xs t
      → n + d ≡ 7
      → In t (collect_items d xs)
  collected_items _ d _ t (first {n} {x} {xs} o) e =
      In-append_left t (collect_tenant_ids d x) (collect_items d xs) (collected n d x t o e)
  collected_items _ d _ t (later {n} {x} {xs} o) e =
      In-append_right t (collect_tenant_ids d x) (collect_items d xs) (collected_items n d xs t o e)

  collected_fields :
      (n d : ℕ) (fs : Fields) (t : String)
      → OccursFields n fs t
      → n + d ≡ 7
      → In t (collect_fields d fs)
  collected_fields _ d _ t (under_key {n} {fs}) e = inl refl
  collected_fields _ d _ t (nested {n} {key} {v} {fs} o) e =
      In-append_left t (pick key (as_text v) (collect_tenant_ids d v)) (collect_fields d fs)
        (In-pick t key d v (collected n d v t o e))
  collected_fields _ d _ t (further {n} {key} {v} {fs} o) e =
      In-append_right t (pick key (as_text v) (collect_tenant_ids d v)) (collect_fields d fs)
        (collected_fields n d fs t o e)

check_all_sound :
    (own t : String) (ids : List String) → check_all own ids ≡ ok tt → In t ids → t ≡ own
unfolding check_all
check_all_sound own t [] h i = absurd i
check_all_sound own t (x ∷ xs) h (inl e) = ground (arith, eq_iff x own)
check_all_sound own t (x ∷ xs) h (inr i) = check_all_sound own t xs (ground arith) i

-- In a request that the guard lets pass for a user, each text under the key tenantId in the
-- parameters, query or body, within seven containers of one another, is the tenant of the user.
pub within_tenant :
    (r : Request) (user : AuthenticatedUser) (t : String)
    → can_activate false r ≡ ok tt
    → r.user ≡ some user
    → Occurs 7 r.params t ⊎ Occurs 7 r.query t ⊎ Occurs 7 r.body t
    → t ≡ user.tenant_id
unfolding can_activate
within_tenant r user t h hu (inl o) =
    check_all_sound user.tenant_id t (collect_tenant_ids 0 r.params) (ground arith)
      (collected 7 0 r.params t o refl)
within_tenant r user t h hu (inr (inl o)) =
    check_all_sound user.tenant_id t (collect_tenant_ids 0 r.query) (ground arith)
      (collected 7 0 r.query t o refl)
within_tenant r user t h hu (inr (inr o)) =
    check_all_sound user.tenant_id t (collect_tenant_ids 0 r.body) (ground arith)
      (collected 7 0 r.body t o refl)
