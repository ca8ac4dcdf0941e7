-- ===== src/Base/Lists.antt =====
-- Lists over the native numbers: lengths, filters with a Boolean test, searches and the predicate
-- that holds of every element.
use Prim.Native.Nat.{ℕ, suc}
use mathlib.Core.Bool.{Bool, true, false, ◌&&◌}
use mathlib.Core.Option.{Option, none, some}
use mathlib.Core.List.{List, [], ◌∷◌, ◌++◌}
use mathlib.Core.Path.{◌≡◌}
use mathlib.Core.Logic.{inl, inr}
use komi_saas_api.Base.Tests.{if◌then◌else◌, Bool-cases}

module _ {ℓ} {A : Type ℓ} where
  abbrev pub length : List A → ℕ
  length [] = 0
  length (x ∷ xs) = suc (length xs)

  -- `xs.filter(p)`
  abbrev pub filter : (A → Bool) → List A → List A
  filter p [] = []
  filter p (x ∷ xs) = if p x then x ∷ filter p xs else filter p xs

  -- `xs.find(p)`
  abbrev pub find : (A → Bool) → List A → Option A
  find p [] = none
  find p (x ∷ xs) = if p x then some x else find p xs

  -- `xs.some(p)`
  abbrev pub any : (A → Bool) → List A → Bool
  any p [] = false
  any p (x ∷ xs) = if p x then true else any p xs

  abbrev pub all : (A → Bool) → List A → Bool
  all p [] = true
  all p (x ∷ xs) = p x && all p xs

module _ {ℓ κ} {A : Type ℓ} (P : A → Type κ) where
  abbrev pub All : List A → Type κ
  All [] = Unit
  All (x ∷ xs) = P x × All xs

  pub All-append : (xs ys : List A) → All xs → All ys → All (xs ++ ys)
  All-append [] ys hx hy = hy
  All-append (x ∷ xs) ys hx hy = (hx.0, All-append xs ys hx.1 hy)

pub All-map {ℓ κ} :
    {A : Type ℓ} (P Q : A → Type κ) → ((x : A) → P x → Q x) → (xs : List A) → All P xs → All Q xs
All-map P Q f [] h = tt
All-map P Q f (x ∷ xs) h = (f x h.0, All-map P Q f xs h.1)

-- What holds of the elements that a test keeps.
pub All-filter {ℓ} :
    {A : Type ℓ} (P : A → Type 0) (q : A → Bool) (xs : List A)
    → All P xs
    → All (λ (x : A). P x × (q x ≡ true)) (filter q xs)
All-filter P q [] h = tt
All-filter P q (x ∷ xs) h = elim (Bool-cases (q x)) [
  | inl e ↦ rw e ((h.0, e), All-filter P q xs h.1)
  | inr e ↦ rw e (All-filter P q xs h.1)
]

pub filter-All {ℓ} :
    {A : Type ℓ} (q : A → Bool) (xs : List A) → All (λ (x : A). q x ≡ true) (filter q xs)
filter-All q [] = tt
filter-All q (x ∷ xs) = elim (Bool-cases (q x)) [
  | inl e ↦ rw e (e, filter-All q xs)
  | inr e ↦ rw e (filter-All q xs)
]
