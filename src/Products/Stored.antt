-- ===== src/Products/Stored.antt =====
-- The requests on products, one after another, and what they keep of the table.
pub mod Prices
pub mod Deleted
use komi_saas_api.Base.{ℕ, String, Option, List, any, ◌≡◌, false}
use komi_saas_api.Base.Throws.{ok}
use komi_saas_api.Shared.Decimal.{Decimal}
use komi_saas_api.Products.Product.{ProductEvent}
use komi_saas_api.Products.Table.{ProductRow, Database, Ports, has_id}
use komi_saas_api.Products.Requests.{
  CreateParams, UpdateParams, create_product, update_product, delete_product,
}

module _ (d : Decimal) (ports : Ports) where
  -- One request that is answered well. A product that is created draws an id that no row has.
  pub data Step : Database → Database → Type 0 where
    created :
        {db db' : Database} (params : CreateParams d) (sequence : Option ℕ) (id : String) (now : ℕ)
        (events : List (ProductEvent d))
        → any (has_id id) db.products ≡ false
        → create_product ports params sequence id now db ≡ ok (db', events)
        → Step db db'
    updated :
        {db db' : Database} (params : UpdateParams d) (now : ℕ)
        → update_product ports params now db ≡ ok db'
        → Step db db'
    deleted :
        {db db' : Database} (id tenant user : String) (now : ℕ) (events : List (ProductEvent d))
        → delete_product {d = d} ports id tenant user now db ≡ ok (db', events)
        → Step db db'

  pub data Steps : Database → Database → Type 0 where
    start : {db : Database} → Steps db db
    then_step : {db db' db'' : Database} → Step db db' → Steps db' db'' → Steps db db''
