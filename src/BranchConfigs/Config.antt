-- ===== src/BranchConfigs/Config.antt =====
-- The configuration of a product in a branch
-- (src/context/product-branch-config/domain/product-branch-config.aggregate.ts), its row
-- (infrastructure/persistence/models) and the mapper.
use komi_saas_api.Base.{
  ℕ, String, Option, none, some, Bool, not, ◌&&◌, ◌||◌, is_some, is_empty, or_else,
}
use komi_saas_api.Base.Throws.{Result, ok, err, ◌>>=◌, ◌>>◌, throw_if}
use komi_saas_api.Shared.Failure as Shared_failure
use komi_saas_api.Shared.Decimal.{Decimal}
use komi_saas_api.Shared.Money.{Money, get_amount}
use komi_saas_api.Shared.Money as Money_ops

pub data ConfigError : Type 0 where
  empty_config : ConfigError
  invalid_uuid duplicate_branch product_not_found branch_not_found : String → ConfigError
  -- the product and the branch
  config_not_found : String → String → ConfigError
  of_shared : Shared_failure.Failure → ConfigError

abbrev pub lift_shared : {A : Type 0} → Result Shared_failure.Failure A → Result ConfigError A
lift_shared (ok a) = ok a
lift_shared (err e) = err (ConfigError.of_shared e)

-- `new Uuid(value)`
unfoldable pub create_id : (String → Bool) → String → Result ConfigError String
create_id valid_uuid value =
    throw_if (is_empty value || not (valid_uuid value)) (invalid_uuid value) >> ok value

pub record Config (d : Decimal) : Type 0 where
  pub id : String
  pub tenant_id : String
  pub product_id : String
  pub branch_id : String
  pub price : Option (Money d)
  pub is_available : Option Bool
  pub created_at : ℕ
  pub updated_at : ℕ

-- `ProductBranchConfigEntity`, and the primitives, which have the same fields.
pub record ConfigRow : Type 0 where
  pub id : String
  pub tenant_id : String
  pub product_id : String
  pub branch_id : String
  pub price_amount : Option String
  pub price_currency : Option String
  pub is_available : Option Bool
  pub created_at : ℕ
  pub updated_at : ℕ

module _ {d : Decimal} where
  abbrev pub ensure_valid_price : Option (Money d) → Result ConfigError (Unit {0})
  ensure_valid_price none = ok tt
  ensure_valid_price (some price) =
      throw_if (Money_ops.equals d price (Money_ops.make d d.nought price.currency))
        (ConfigError.of_shared Shared_failure.base_price)

  abbrev pub ensure_not_empty : Option (Money d) → Option Bool → Result ConfigError (Unit {0})
  ensure_not_empty price is_available =
      throw_if (not (is_some price) && not (is_some is_available)) empty_config

  unfoldable pub create :
      String
      → String
      → String
      → Option (Money d)
      → Option Bool
      → String
      → ℕ
      → Result ConfigError (Config d)
  create tenant_id product_id branch_id price is_available id now = do
    ensure_valid_price price
    ensure_not_empty price is_available
    ok (record {
      id = id;
      tenant_id = tenant_id;
      product_id = product_id;
      branch_id = branch_id;
      price = price;
      is_available = is_available;
      created_at = now;
      updated_at = now;
    })

  -- A key that is left out is `none`.
  unfoldable pub change :
      Option (Option (Money d))
      → Option (Option Bool)
      → ℕ
      → Config d
      → Result ConfigError (Config d)
  change given_price given_flag now config = do
    let price = or_else given_price config.price
    let is_available = or_else given_flag config.is_available
    ensure_valid_price price
    ensure_not_empty price is_available
    ok (record config { price = price; is_available = is_available; updated_at = now })

  -- `price !== null ? Money.of(price, currency ?? undefined) : null`; a currency that is left out is COP.
  abbrev pub read_price :
      (String → String) → Option String → Option String → Result ConfigError (Option (Money d))
  read_price upper_case none currency = ok none
  read_price upper_case (some amount) currency =
      lift_shared (Money_ops.of d upper_case amount (or_else currency "COP")) >>= λ price.
      ok (some price)

  -- `ProductBranchConfigMapper.toDomain`
  unfoldable pub to_domain :
      (String → Bool) → (String → String) → ConfigRow → Result ConfigError (Config d)
  to_domain valid_uuid upper_case row = do
    price ← read_price upper_case row.price_amount row.price_currency
    id ← create_id valid_uuid row.id
    ok (record {
      id = id;
      tenant_id = row.tenant_id;
      product_id = row.product_id;
      branch_id = row.branch_id;
      price = price;
      is_available = row.is_available;
      created_at = row.created_at;
      updated_at = row.updated_at;
    })

  abbrev pub amount_of : Option (Money d) → Option String
  amount_of none = none
  amount_of (some price) = some (get_amount d price)

  abbrev pub currency_of : Option (Money d) → Option String
  currency_of none = none
  currency_of (some price) = some price.currency

  -- `ProductBranchConfigMapper.toPersistence`
  unfoldable pub to_persistence : Config d → ConfigRow
  to_persistence config = record {
    id = config.id;
    tenant_id = config.tenant_id;
    product_id = config.product_id;
    branch_id = config.branch_id;
    price_amount = amount_of config.price;
    price_currency = currency_of config.price;
    is_available = config.is_available;
    created_at = config.created_at;
    updated_at = config.updated_at;
  }
