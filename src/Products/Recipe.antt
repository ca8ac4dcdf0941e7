-- ===== src/Products/Recipe.antt =====
-- An ingredient of a recipe (src/context/products/domain/recipe/recipe-ingredient.entity.ts).
use komi_saas_api.Base.{String, Option, none, some, Bool}
use komi_saas_api.Base.Throws.{Result, ok, ◌>>=◌, ◌>>◌, throw_if}
use komi_saas_api.Shared.Decimal.{Decimal}
use komi_saas_api.Shared.Quantity
use komi_saas_api.Products.Failure.{ProductError, non_positive_ingredient}

pub record Ingredient (d : Decimal) : Type 0 where
  pub id : String
  pub inventory_item_id : String
  pub quantity : d.Num
  pub is_optional : Bool

-- The parameters of `create`, of `addIngredient` and of an entry of `replaceRecipe`.
pub record NewIngredient (d : Decimal) : Type 0 where
  pub inventory_item_id : String
  pub quantity : d.Num
  pub is_optional : Bool

module _ {d : Decimal} where
  unfoldable pub create : NewIngredient d → String → Result ProductError (Ingredient d)
  create params id = do
    throw_if (Quantity.is_zero d params.quantity) non_positive_ingredient
    ok (record {
      id = id;
      inventory_item_id = params.inventory_item_id;
      quantity = params.quantity;
      is_optional = params.is_optional;
    })

  abbrev pub set_quantity : Option d.Num → Ingredient d → Result ProductError (Ingredient d)
  set_quantity none ingredient = ok ingredient
  set_quantity (some quantity) ingredient = do
    throw_if (Quantity.is_zero d quantity) non_positive_ingredient
    ok (record ingredient { quantity = quantity })

  abbrev pub set_optional : Option Bool → Ingredient d → Ingredient d
  set_optional none ingredient = ingredient
  set_optional (some flag) ingredient = record ingredient { is_optional = flag }

  unfoldable pub change :
      Option d.Num → Option Bool → Ingredient d → Result ProductError (Ingredient d)
  change quantity is_optional ingredient = do
    changed ← set_quantity quantity ingredient
    ok (set_optional is_optional changed)
