-- ===== src/Tenants/Uniqueness.antt =====
-- The slugs and NITs of the tenants, deleted ones included: what a table has, and what a write leaves.
pub mod Reading
pub mod Steps
use komi_saas_api.Base.{
  ℕ, String, Option, none, some, Bool, true, false, not, ◌&&◌, ◌||◌, List, [], ◌∷◌, ◌++◌, map, find,
  any, str_eq, ◌≡◌, refl, arith, All, All-map, All-append, Bool-cases, inl, inr, eq_iff, subst, sym,
  ◌∙◌,
}
use komi_saas_api.Base.Text.Trimming.{trim-trim}
use komi_saas_api.Base.Apart.{Apart, Apart-append, Apart-map, find-All}
use komi_saas_api.Base.Throws.{ok, then-ok, throw_if}
use komi_saas_api.Tenants.Tenant.{Tenant, create_slug, create_nit, not_stored}
use komi_saas_api.Tenants.Table as Table
use komi_saas_api.Tenants.Table.{TenantRow, Ports, same_key, to_primitives, written, put_row, save}

pub create_slug-again : (raw slug : String) → create_slug raw ≡ ok slug → create_slug slug ≡ ok slug
unfolding create_slug
create_slug-again raw slug e = ground (arith, trim-trim raw)

pub create_nit-again : (raw nit : String) → create_nit raw ≡ ok nit → create_nit nit ≡ ok nit
unfolding create_nit
create_nit-again raw nit e = ground (arith, trim-trim raw)

-- Two rows with one id, one slug or one NIT.
abbrev pub clash : TenantRow → TenantRow → Bool
clash r s = str_eq r.id s.id || str_eq r.slug s.slug || str_eq r.nit s.nit

-- The slug and the NIT are ones that their value objects accept as they are.
abbrev pub IsKept : TenantRow → Type 0
IsKept row = (create_slug row.slug ≡ ok row.slug) × (create_nit row.nit ≡ ok row.nit)

abbrev pub IsTidy : List TenantRow → Type 0
IsTidy rows = All IsKept rows × Apart clash rows

-- The value is that of no row but those of the id that are not deleted.
abbrev pub Free : (TenantRow → String) → String → String → TenantRow → Type 0
Free attr id value row = same_key id row ≡ false → str_eq (attr row) value ≡ false

abbrev pub slug_of : TenantRow → String
slug_of row = row.slug

abbrev pub nit_of : TenantRow → String
nit_of row = row.nit

module _ (attr : TenantRow → String)
    (attr_apart : (r s : TenantRow) → clash r s ≡ false → str_eq (attr r) (attr s) ≡ false) where
  Free-after : (id : String) (r s : TenantRow) → clash r s ≡ false → Free attr id (attr r) s
  Free-after id r s apart other =
      ground (arith, attr_apart r s, eq_iff (attr r) (attr s), eq_iff (attr s) (attr r))

  -- What a row that is found has is free, where no two rows clash.
  found-Free :
      (id : String) (r : TenantRow) (rows : List TenantRow)
      → find (same_key id) rows ≡ some r
      → Apart clash rows
      → All (Free attr id (attr r)) rows
  found-Free id r [] e h = tt
  found-Free id r (s ∷ rows) e h = elim (Bool-cases (same_key id s)) [
    | inl here ↦
        let same : s ≡ r = ground arith in
        (
          λ other. absurd (ground arith),
          All-map (λ (y : TenantRow). clash s y ≡ false) (Free attr id (attr r))
              (λ y apart.
                subst (λ (z : TenantRow). Free attr id (attr z) y) same (Free-after id s y apart))
              rows h.0,
        )
    | inr later ↦
        let there : find (same_key id) rows ≡ some r = ground arith in
        let (apart, key) =
          find-All (λ (y : TenantRow). clash s y ≡ false) (same_key id) rows r there h.0 in
        (λ other. attr_apart s r apart, found-Free id r rows there h.1)
  ]

slugs_apart : (r s : TenantRow) → clash r s ≡ false → str_eq r.slug s.slug ≡ false
slugs_apart r s e = ground arith

nits_apart : (r s : TenantRow) → clash r s ≡ false → str_eq r.nit s.nit ≡ false
nits_apart r s e = ground arith

pub found_slug-Free :
    (id : String) (r : TenantRow) (rows : List TenantRow)
    → find (same_key id) rows ≡ some r
    → Apart clash rows
    → All (Free slug_of id r.slug) rows
found_slug-Free = found-Free slug_of slugs_apart

pub found_nit-Free :
    (id : String) (r : TenantRow) (rows : List TenantRow)
    → find (same_key id) rows ≡ some r
    → Apart clash rows
    → All (Free nit_of id r.nit) rows
found_nit-Free = found-Free nit_of nits_apart

-- Both values are free.
abbrev pub BothFree : Tenant → TenantRow → Type 0
BothFree t row = Free slug_of t.id t.slug row × Free nit_of t.id t.nit row

written_apart :
    (t : Tenant) (x y : TenantRow)
    → BothFree t x
    → BothFree t y
    → clash x y ≡ false
    → clash (written t x) (written t y) ≡ false
written_apart t x y (sx, nx) (sy, ny) apart = ground (
  arith,
  sx,
  nx,
  sy,
  ny,
  eq_iff x.id t.id,
  eq_iff y.id t.id,
  eq_iff x.id y.id,
  eq_iff t.slug y.slug,
  eq_iff y.slug t.slug,
  eq_iff t.nit y.nit,
  eq_iff y.nit t.nit,
)

IsKept-after :
    (t : Tenant) (rows : List TenantRow)
    → (create_slug t.slug ≡ ok t.slug) × (create_nit t.nit ≡ ok t.nit)
    → All IsKept rows
    → All IsKept (map (written t) rows)
IsKept-after t [] e h = tt
IsKept-after t (r ∷ rows) e h = (
  elim (Bool-cases (same_key t.id r)) [ inl k ↦ rw k e | inr k ↦ rw k h.0 ],
  IsKept-after t rows e h.1,
)

both :
    (t : Tenant) (rows : List TenantRow)
    → All (Free slug_of t.id t.slug) rows
    → All (Free nit_of t.id t.nit) rows
    → All (BothFree t) rows
both t [] hs hn = tt
both t (r ∷ rows) hs hn = ((hs.0, hn.0), both t rows hs.1 hn.1)

put_row-new :
    (row : TenantRow) (rows : List TenantRow)
    → any (λ r. str_eq r.id row.id) rows ≡ false
    → put_row row rows ≡ rows ++ row ∷ []
unfolding put_row
put_row-new row [] e = refl
put_row-new row (r ∷ rows) e = ground (arith, put_row-new row rows)

all_fresh :
    (new : TenantRow) (rows : List TenantRow)
    → any (λ r. str_eq r.id new.id) rows ≡ false
    → any (λ r. str_eq r.slug new.slug) rows ≡ false
    → any (λ r. str_eq r.nit new.nit) rows ≡ false
    → All (λ (r : TenantRow). clash r new ≡ false) rows
all_fresh new [] ei es en = tt
all_fresh new (r ∷ rows) ei es en =
    (ground arith, all_fresh new rows (ground arith) (ground arith) (ground arith))

module _ (ports : Ports) where
  pub update-IsTidy :
      (t : Tenant) (rows rows' : List TenantRow)
      → Table.update ports t rows ≡ ok rows'
      → (create_slug t.slug ≡ ok t.slug) × (create_nit t.nit ≡ ok t.nit)
      → All (Free slug_of t.id t.slug) rows
      → All (Free nit_of t.id t.nit) rows
      → IsTidy rows
      → IsTidy rows'
  unfolding Table.update
  update-IsTidy t rows rows' e kept slugs nits h =
      let (_, e1) =
        then-ok {check = throw_if (not (ports.accepts (to_primitives t) rows)) not_stored} e in
      let same : map (written t) rows ≡ rows' = ground arith in
      subst IsTidy same (
        IsKept-after t rows kept h.0,
        Apart-map clash (BothFree t) (written t) (written_apart t) rows (both t rows slugs nits)
            h.1,
      )

  pub save-IsTidy :
      (t : Tenant) (rows rows' : List TenantRow)
      → save ports t rows ≡ ok rows'
      → any (λ r. str_eq r.id t.id) rows ≡ false
      → any (λ r. str_eq r.slug t.slug) rows ≡ false
      → any (λ r. str_eq r.nit t.nit) rows ≡ false
      → (create_slug t.slug ≡ ok t.slug) × (create_nit t.nit ≡ ok t.nit)
      → IsTidy rows
      → IsTidy rows'
  unfolding save to_primitives
  save-IsTidy t rows rows' e new slug nit kept h =
      let (_, e1) =
        then-ok {check = throw_if (not (ports.accepts (to_primitives t) rows)) not_stored} e in
      let stored : put_row (to_primitives t) rows ≡ rows' = ground arith in
      subst IsTidy (sym (put_row-new (to_primitives t) rows new) ∙ stored) (
        All-append IsKept rows (to_primitives t ∷ []) h.0 (kept, tt),
        Apart-append clash (to_primitives t) rows h.1
            (all_fresh (to_primitives t) rows new slug nit),
      )
