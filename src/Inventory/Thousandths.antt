-- ===== src/Inventory/Thousandths.antt =====
-- A decimal library of whole thousandths with a sign, which meets the documented behaviour: the tests
-- run on it. A number prints as so many strokes.
use komi_saas_api.Base.{
  ℕ, zero, suc, ◌+◌, ◌-◌, ◌*◌, ◌≤◌, ◌<◌, String, some, Bool, true, false, ◌≡◌, refl, ap, ltb, leb,
  ◌==◌, arith, if◌then◌else◌,
}
use komi_saas_api.Shared.Decimal.{Decimal, DecimalLaws, limit}

-- `below n` is -(n + 1).
pub data Signed : Type 0 where
  plain : ℕ → Signed
  below : ℕ → Signed

abbrev pub size : Signed → ℕ
size (plain n) = n
size (below n) = 0

abbrev pub difference : ℕ → ℕ → Signed
difference a b = if ltb a b then below (b - a - 1) else plain (a - b)

abbrev pub is_below : Signed → Bool
is_below (plain n) = false
is_below (below n) = true

abbrev pub strokes : ℕ → String
strokes zero = ""
strokes (suc n) = String.◌∷◌ "|" (strokes n)

abbrev pub count : String → ℕ
count String.[] = 0
count (String.◌∷◌ c s) = suc (count s)

count-strokes : (n : ℕ) → count (strokes n) ≡ n
count-strokes zero = refl
count-strokes (suc n) = ap suc (count-strokes n)

abbrev pub thousandths : Decimal
thousandths = record {
  Num = Signed;
  parse = λ s. some (plain (count s));
  plus = λ a b. plain (size a + size b);
  minus = λ a b. difference (size a) (size b);
  times = λ a b. plain (size a * size b);
  divided_by = λ a b. a;
  to_decimal_places = λ k a. a;
  is_finite = λ a. true;
  is_negative = is_below;
  is_zero = λ a. size a == 0;
  greater_than = λ a b. ltb (size b) (size a);
  greater_than_or_equal_to = λ a b. leb (size b) (size a);
  equals = λ a b. size a == size b;
  to_string = λ a. strokes (size a);
  to_fixed = λ k a. strokes (size a);
  nought = plain 0;
  one = plain 1;
  hundred = plain 100;
}

abbrev pub FitsIn : Signed → Type 0
FitsIn (plain n) = n < limit
FitsIn (below n) = ⊥

pub bound : (a : Signed) → FitsIn a → size a < limit
bound (plain n) h = h
bound (below n) h = absurd h

pub minus_sign : (a b : Signed) → is_below (difference (size a) (size b)) ≡ ltb (size a) (size b)
minus_sign a b = ground arith

pub minus_fits : (a b : Signed) → FitsIn a → size b ≤ size a → FitsIn (difference (size a) (size b))
minus_fits (below n) b fa h = absurd fa
minus_fits (plain n) b fa h = ground arith

pub minus_size :
    (a b : Signed) → size b ≤ size a → size (difference (size a) (size b)) ≡ size a - size b
minus_size a b h = ground arith

pub read_back : (a : Signed) → FitsIn a → some (plain (count (strokes (size a)))) ≡ some a
read_back (plain n) h = ap (λ m. some (plain m)) (count-strokes n)
read_back (below n) h = absurd h

pub not_below : (a : Signed) → FitsIn a → is_below a ≡ false
not_below (plain n) h = refl
not_below (below n) h = absurd h

abbrev pub thousandths_laws : DecimalLaws thousandths
thousandths_laws = record {
  Fits = FitsIn;
  milli = size;
  nought_fits = omega arith;
  nought_milli = refl;
  milli_bound = bound;
  plus_fits = λ a b fa fb h. h;
  plus_milli = λ a b fa fb h. refl;
  minus_sign = λ a b fa fb. minus_sign a b;
  minus_fits = λ a b fa fb h. minus_fits a b fa h;
  minus_milli = λ a b fa fb h. minus_size a b h;
  rounded = λ a fa. refl;
  is_zero_lem = λ a fa. refl;
  greater_than_lem = λ a b fa fb. refl;
  parse-to_string = read_back;
  finite = λ a fa. refl;
  not_negative = not_below;
}
