-- ===== src/Base/Apart.antt =====
-- Lists in which no two elements clash, as a unique index asks.
use mathlib.Core.Bool.{Bool, true, false}
use mathlib.Core.Option.{some}
use mathlib.Core.List.{List, [], ◌∷◌, ◌++◌, map}
use mathlib.Core.Path.{◌≡◌, subst}
use mathlib.Core.Logic.{inl, inr}
use native.Mathlib.Omega.{arith}
use komi_saas_api.Base.Tests.{Bool-cases}
use komi_saas_api.Base.Lists.{All, any, find}

-- A search that finds nothing.
pub any-none {ℓ} :
    {A : Type ℓ} (p : A → Bool) (xs : List A) → any p xs ≡ false → All (λ (x : A). p x ≡ false) xs
any-none p [] e = tt
any-none p (x ∷ xs) e = elim (Bool-cases (p x)) [
  | inl t ↦ absurd (ground arith)
  | inr f ↦ (f, any-none p xs (ground arith))
]

module _ {ℓ} {A : Type ℓ} (clash : A → A → Bool) where
  abbrev pub Apart : List A → Type 0
  Apart [] = Unit
  Apart (x ∷ xs) = All (λ (y : A). clash x y ≡ false) xs × Apart xs

  All-append_one :
      (x new : A) (xs : List A)
      → All (λ (y : A). clash x y ≡ false) xs
      → clash x new ≡ false
      → All (λ (y : A). clash x y ≡ false) (xs ++ new ∷ [])
  All-append_one x new [] h e = (e, tt)
  All-append_one x new (y ∷ ys) h e = (h.0, All-append_one x new ys h.1 e)

  pub Apart-append :
      (new : A) (xs : List A)
      → Apart xs
      → All (λ (x : A). clash x new ≡ false) xs
      → Apart (xs ++ new ∷ [])
  Apart-append new [] h fresh = (tt, tt)
  Apart-append new (x ∷ xs) h fresh =
      (All-append_one x new xs h.0 fresh.0, Apart-append new xs h.1 fresh.1)

  -- A change of each element that keeps apart what is apart, where `P` is known of each.
  module _ (P : A → Type 0) (f : A → A)
      (kept : (x y : A) → P x → P y → clash x y ≡ false → clash (f x) (f y) ≡ false) where
    All-changed :
        (x : A) (xs : List A)
        → P x
        → All P xs
        → All (λ (y : A). clash x y ≡ false) xs
        → All (λ (y : A). clash (f x) y ≡ false) (map f xs)
    All-changed x [] px ps h = tt
    All-changed x (y ∷ ys) px ps h = (kept x y px ps.0 h.0, All-changed x ys px ps.1 h.1)

    pub Apart-map : (xs : List A) → All P xs → Apart xs → Apart (map f xs)
    Apart-map [] ps h = tt
    Apart-map (x ∷ xs) ps h = (All-changed x xs ps.0 ps.1 h.0, Apart-map xs ps.1 h.1)

-- What holds of all elements holds of the one that is found, which passes the test.
pub find-All {ℓ} :
    {A : Type ℓ} (P : A → Type 0) (p : A → Bool) (xs : List A) (a : A)
    → find p xs ≡ some a
    → All P xs
    → P a × (p a ≡ true)
find-All P p [] a e h = absurd (ground arith)
find-All P p (x ∷ xs) a e h = elim (Bool-cases (p x)) [
  | inl t ↦ let same : x ≡ a = ground arith in (subst P same h.0, subst (λ z. p z ≡ true) same t)
  | inr f ↦ find-All P p xs a (ground arith) h.1
]

pub All-anything {ℓ} : {A : Type ℓ} (xs : List A) → All (λ (x : A). Unit {0}) xs
All-anything [] = tt
All-anything (x ∷ xs) = (tt, All-anything xs)

-- What is found passes the test.
pub find-passes {ℓ} :
    {A : Type ℓ} (p : A → Bool) (xs : List A) (a : A) → find p xs ≡ some a → p a ≡ true
find-passes p xs a e = (find-All (λ x. Unit {0}) p xs a e (All-anything xs)).1
