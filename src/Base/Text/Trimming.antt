-- ===== src/Base/Text/Trimming.antt =====
-- Trimming twice is trimming once.
use Prim.Native.Char.{Char}
use Prim.Native.String.{String}
use mathlib.Core.Path.{◌≡◌, refl}
use mathlib.Core.Bool.{false}
use mathlib.Core.Logic.{◌⊎◌, inl, inr}
use native.Mathlib.Omega.{arith}
use komi_saas_api.Base.Tests.{Bool-cases}
use komi_saas_api.Base.Text.{is_space, trim_start, trim_end, trim}

-- What is left starts with a character that is no space, or there is nothing.
trim_start-cases :
    (s : String)
    → (trim_start s ≡ "")
      ⊎ ((c : Char) × (r : String) × (is_space c ≡ false) × (trim_start s ≡ String.◌∷◌ c r))
unfolding trim_start
trim_start-cases String.[] = inl refl
trim_start-cases (String.◌∷◌ c s) = elim (Bool-cases (is_space c)) [
  | inl e ↦ rw e (trim_start-cases s)
  | inr e ↦ inr (c, s, e, rw e refl)
]

trim_end-trim_end : (s : String) → trim_end (trim_end s) ≡ trim_end s
unfolding trim_end
trim_end-trim_end String.[] = refl
trim_end-trim_end (String.◌∷◌ c s) = ground (arith, trim_end-trim_end s)

trim_end-solid :
    (c : Char) (s : String)
    → is_space c ≡ false
    → trim_end (String.◌∷◌ c s) ≡ String.◌∷◌ c (trim_end s)
unfolding trim_end
trim_end-solid c s e = ground arith

trim_start-solid :
    (c : Char) (s : String) → is_space c ≡ false → trim_start (String.◌∷◌ c s) ≡ String.◌∷◌ c s
unfolding trim_start
trim_start-solid c s e = rw e refl

pub trim-trim : (s : String) → trim (trim s) ≡ trim s
unfolding trim
trim-trim s = elim (trim_start-cases s) [
  | inl e ↦ rw e (unfold trim_end in unfold trim_start in refl)
  | inr (c, r, solid, e) ↦
      rw (e, trim_end-solid c r solid, trim_start-solid c (trim_end r) solid)
        (rw (trim_end-solid c (trim_end r) solid, trim_end-trim_end r) refl)
]
