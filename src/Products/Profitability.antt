-- ===== src/Products/Profitability.antt =====
-- The calculator of profitability
-- (src/context/products/domain/services/profitability-calculator.ts) and the profit margin
-- (value-object/profit-margin.value-object.ts).
use komi_saas_api.Base.{String, Option, none, some, not, ◌||◌, str_eq, if◌then◌else◌}
use komi_saas_api.Base.Throws.{Result, ok, err, ◌>>=◌, ◌>>◌, throw_if}
use komi_saas_api.Shared.Decimal.{Decimal}
use komi_saas_api.Products.Failure.{
  ProductError, invalid_target_margin, invalid_profit_margin, price_margin_mismatch, not_a_number,
}

pub record Input : Type 0 where
  pub cost : String
  pub price : Option String
  pub target_margin : Option String

-- `ProfitabilityResult`
pub record Indicators : Type 0 where
  pub cost : String
  pub price : Option String
  pub gross_profit : Option String
  pub margin : Option String
  pub food_cost : Option String
  pub markup : Option String

module _ (d : Decimal) where
  -- `new Decimal(text)`
  abbrev pub read : String → Result ProductError d.Num
  read text = elim (d.parse text) [ none ↦ err not_a_number | some n ↦ ok n ]

  unfoldable pub round : d.Num → String
  round n = d.to_fixed 2 (d.to_decimal_places 2 n)

  unfoldable pub margin_of : d.Num → d.Num → d.Num
  margin_of cost price =
      if d.is_zero price
      then d.nought
      else d.times (d.divided_by (d.minus price cost) price) d.hundred

  unfoldable pub price_for_margin : d.Num → d.Num → d.Num
  price_for_margin cost margin = d.divided_by cost (d.minus d.one (d.divided_by margin d.hundred))

  unfoldable pub assert_valid_margin : String → Result ProductError (Unit {0})
  assert_valid_margin margin = do
    value ← read margin
    throw_if (d.is_negative value || d.greater_than_or_equal_to value d.hundred)
        invalid_target_margin

  unfoldable pub assert_price_matches_margin :
      d.Num → d.Num → d.Num → Result ProductError (Unit {0})
  unfolding round margin_of price_for_margin
  assert_price_matches_margin cost price margin =
      throw_if (not (str_eq (round (margin_of cost price)) (round margin))) (
        price_margin_mismatch (round margin) (round (margin_of cost price))
          (round (price_for_margin cost margin)))

  unfoldable pub from_price : d.Num → d.Num → Indicators
  unfolding round margin_of
  from_price cost price = record {
    cost = round cost;
    price = some (round price);
    gross_profit = some (round (d.minus price cost));
    margin = some (round (margin_of cost price));
    food_cost =
        if d.is_zero price
        then none
        else some (round (d.times (d.divided_by cost price) d.hundred));
    markup =
        if d.is_zero cost
        then none
        else some (round (d.times (d.divided_by (d.minus price cost) cost) d.hundred));
  }

  -- What `calculate` does once the cost is read and the margin is in range.
  abbrev pub by_inputs : d.Num → Option String → Option String → Result ProductError Indicators
  by_inputs cost none none = ok (record {
    cost = round cost;
    price = none;
    gross_profit = none;
    margin = none;
    food_cost = none;
    markup = none;
  })
  by_inputs cost none (some target) = do
    margin ← read target
    ok (from_price cost (price_for_margin cost margin))
  by_inputs cost (some text) none = do price ← read text; ok (from_price cost price)
  by_inputs cost (some text) (some target) = do
    price ← read text
    margin ← read target
    assert_price_matches_margin cost price margin
    ok (from_price cost price)

  abbrev pub check_target : Option String → Result ProductError (Unit {0})
  check_target none = ok tt
  check_target (some margin) = assert_valid_margin margin

  unfoldable pub calculate : Input → Result ProductError Indicators
  unfolding assert_valid_margin assert_price_matches_margin from_price price_for_margin round
  calculate input = do
    cost ← read input.cost
    check_target input.target_margin
    by_inputs cost input.price input.target_margin

  -- `ProfitMargin.create`: a margin is its decimal, which the constructor rounds.
  unfoldable pub create_margin : String → Result ProductError d.Num
  create_margin value = elim (d.parse value) [
    | none ↦ err invalid_profit_margin
    | some n ↦ do
      throw_if (not (d.is_finite n)) invalid_profit_margin
      throw_if (d.is_zero n || d.is_negative n || d.greater_than_or_equal_to n d.hundred)
          invalid_profit_margin
      ok (d.to_decimal_places 2 n)
  ]

  -- `ProfitMargin.getValue`
  unfoldable pub margin_value : d.Num → String
  margin_value margin = d.to_fixed 2 margin
