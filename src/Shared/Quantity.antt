-- ===== src/Shared/Quantity.antt =====
-- A quantity of stock (src/shared/value-object/quantity.value-object.ts): a decimal kept at three
-- places. The class has one private field, so a quantity is its decimal.
pub mod Exact
use komi_saas_api.Base.{ℕ, String, Option, none, some, Bool, true, false, not, if◌then◌else◌}
use komi_saas_api.Base.Throws.{Result, ok, err, ◌>>=◌, ◌>>◌, throw_if}
use komi_saas_api.Shared.Failure.{Failure, invalid_quantity}
use komi_saas_api.Shared.Decimal.{Decimal}

abbrev pub scale : ℕ
scale = 3

module _ (d : Decimal) where
  abbrev pub Quantity : Type 0
  Quantity = d.Num

  -- The private constructor, which rounds.
  unfoldable pub make : d.Num → Quantity
  make value = d.to_decimal_places scale value

  abbrev pub parsed : Option d.Num → Result Failure d.Num
  parsed none = err invalid_quantity
  parsed (some value) = ok value

  unfoldable pub of : String → Result Failure Quantity
  unfolding make
  of amount = do
    decimal ← parsed (d.parse amount)
    throw_if (not (d.is_finite decimal)) invalid_quantity
    throw_if (d.is_negative decimal) invalid_quantity
    ok (make decimal)

  unfoldable pub zero : Quantity
  unfolding make
  zero = make d.nought

  unfoldable pub add : Quantity → Quantity → Quantity
  unfolding make
  add a b = make (d.plus a b)

  unfoldable pub difference : Quantity → Quantity → Quantity
  unfolding make
  difference a b = make (d.minus a b)

  unfoldable pub subtract : Quantity → Quantity → Result Failure Quantity
  unfolding difference
  subtract a b = if d.is_negative (d.minus a b) then err invalid_quantity else ok (difference a b)

  unfoldable pub is_zero : Quantity → Bool
  is_zero a = d.is_zero a

  unfoldable pub is_greater_than : Quantity → Quantity → Bool
  is_greater_than a b = d.greater_than a b

  unfoldable pub get_value : Quantity → String
  get_value a = d.to_string a
