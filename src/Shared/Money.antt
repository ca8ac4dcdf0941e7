-- ===== src/Shared/Money.antt =====
-- An amount of money (src/shared/value-object/money.value-object.ts): a decimal kept at two places,
-- with its currency. The case mapping of the JavaScript runtime is the argument `upper_case`.
use Prim.Native.Char.{Char, code}
use komi_saas_api.Base.{String, Option, none, some, Bool, false, not, ◌&&◌, ◌||◌, leb, str_eq, trim}
use komi_saas_api.Base.Throws.{Result, ok, err, ◌>>=◌, ◌>>◌, throw_if}
use komi_saas_api.Shared.Failure.{Failure, invalid_money, base_price, currency_mismatch}
use komi_saas_api.Shared.Decimal.{Decimal}

pub record Money (d : Decimal) : Type 0 where
  pub amount : d.Num
  pub currency : String

abbrev pub is_capital : Char → Bool
is_capital c = leb b'A' (code c) && leb (code c) b'Z'

-- `/^[A-Z]{3}$/`
unfoldable pub is_iso_code : String → Bool
is_iso_code (String.◌∷◌ a (String.◌∷◌ b (String.◌∷◌ c String.[]))) =
    is_capital a && is_capital b && is_capital c
is_iso_code _ = false

module _ (d : Decimal) where
  -- The private constructor, which rounds.
  unfoldable pub make : d.Num → String → Money d
  make amount currency = record { amount = d.to_decimal_places 2 amount; currency = currency }

  abbrev pub parsed : Option d.Num → Result Failure d.Num
  parsed none = err invalid_money
  parsed (some value) = ok value

  unfoldable pub of : (String → String) → String → String → Result Failure (Money d)
  unfolding make is_iso_code
  of upper_case amount currency = do
    let iso = upper_case (trim currency)
    throw_if (not (is_iso_code iso)) invalid_money
    decimal ← parsed (d.parse amount)
    throw_if (not (d.is_finite decimal)) invalid_money
    throw_if (d.is_negative decimal) base_price
    ok (make decimal iso)

  unfoldable pub assert_same_currency : Money d → Money d → Result Failure (Unit {0})
  assert_same_currency a b =
      throw_if (not (str_eq a.currency b.currency)) (currency_mismatch a.currency b.currency)

  unfoldable pub add : Money d → Money d → Result Failure (Money d)
  unfolding assert_same_currency make
  add a b = do assert_same_currency a b; ok (make (d.plus a.amount b.amount) a.currency)

  unfoldable pub subtract : Money d → Money d → Result Failure (Money d)
  unfolding assert_same_currency make
  subtract a b = do
    assert_same_currency a b
    let result = d.minus a.amount b.amount
    throw_if (d.is_negative result) invalid_money
    ok (make result a.currency)

  -- The factor is what `new Decimal(factor)` reads.
  unfoldable pub multiply : Money d → d.Num → Result Failure (Money d)
  unfolding make
  multiply a factor = do
    throw_if (d.is_negative factor) invalid_money
    ok (make (d.times a.amount factor) a.currency)

  unfoldable pub divide : Money d → d.Num → Result Failure (Money d)
  unfolding make
  divide a divisor = do
    throw_if (d.is_negative divisor || d.is_zero divisor) invalid_money
    ok (make (d.divided_by a.amount divisor) a.currency)

  unfoldable pub equals : Money d → Money d → Bool
  equals a b = d.equals a.amount b.amount && str_eq a.currency b.currency

  unfoldable pub get_amount : Money d → String
  get_amount a = d.to_fixed 2 a.amount
