-- ===== src/Shared/Decimal.antt =====
-- What the program uses of decimal.js, which is not part of the repository, as a parameter; and its
-- documented behaviour, as hypotheses, on the numbers that quantities are: zero or more thousandths
-- in at most twenty significant digits, the precision that the library keeps by default.
use komi_saas_api.Base.{
  ℕ, ◌+◌, ◌-◌, ◌≤◌, ◌<◌, ◌^◌, String, Option, some, Bool, true, false, ◌≡◌, ltb, ◌==◌,
}

pub record Decimal : Type 1 where
  pub Num : Type 0
  -- `new Decimal(text)`: `none` where the constructor throws
  pub parse : String → Option Num
  pub plus : Num → Num → Num
  pub minus : Num → Num → Num
  pub times : Num → Num → Num
  pub divided_by : Num → Num → Num
  -- `toDecimalPlaces(places, ROUND_HALF_UP)`
  pub to_decimal_places : ℕ → Num → Num
  pub is_finite : Num → Bool
  pub is_negative : Num → Bool
  pub is_zero : Num → Bool
  pub greater_than : Num → Num → Bool
  pub greater_than_or_equal_to : Num → Num → Bool
  pub equals : Num → Num → Bool
  pub to_string : Num → String
  pub to_fixed : ℕ → Num → String
  -- `new Decimal(0)`, `new Decimal(1)` and `new Decimal(100)`
  pub nought : Num
  pub one : Num
  pub hundred : Num

abbrev pub limit : ℕ
limit = 10 ^ 20

-- `Fits a`: `a` is a number of thousandths below the limit, zero or more; `milli a` is that number.
pub record DecimalLaws (d : Decimal) : Type 1 where
  pub Fits : d.Num → Type 0
  pub milli : d.Num → ℕ
  pub nought_fits : Fits d.nought
  pub nought_milli : milli d.nought ≡ 0
  pub milli_bound : (a : d.Num) → Fits a → milli a < limit
  pub plus_fits : (a b : d.Num) → Fits a → Fits b → milli a + milli b < limit → Fits (d.plus a b)
  pub plus_milli :
      (a b : d.Num)
      → Fits a
      → Fits b
      → milli a + milli b < limit
      → milli (d.plus a b) ≡ milli a + milli b
  pub minus_sign :
      (a b : d.Num) → Fits a → Fits b → d.is_negative (d.minus a b) ≡ ltb (milli a) (milli b)
  pub minus_fits : (a b : d.Num) → Fits a → Fits b → milli b ≤ milli a → Fits (d.minus a b)
  pub minus_milli :
      (a b : d.Num) → Fits a → Fits b → milli b ≤ milli a → milli (d.minus a b) ≡ milli a - milli b
  pub rounded : (a : d.Num) → Fits a → d.to_decimal_places 3 a ≡ a
  pub is_zero_lem : (a : d.Num) → Fits a → d.is_zero a ≡ (milli a == 0)
  pub greater_than_lem :
      (a b : d.Num) → Fits a → Fits b → d.greater_than a b ≡ ltb (milli b) (milli a)
  pub parse-to_string : (a : d.Num) → Fits a → d.parse (d.to_string a) ≡ some a
  pub finite : (a : d.Num) → Fits a → d.is_finite a ≡ true
  pub not_negative : (a : d.Num) → Fits a → d.is_negative a ≡ false
