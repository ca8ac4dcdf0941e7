-- ===== src/Products.antt =====
-- Products (src/context/products): the calculator of profitability, the recipe, the product and its use
-- cases.
pub mod Failure
pub mod Profitability
pub mod Recipe
pub mod Product
pub mod Sku
pub mod Table
pub mod Requests
pub mod Stored
pub mod Tests
mod RequestTests
