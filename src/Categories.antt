-- ===== src/Categories.antt =====
-- The categories of products (src/context/product-categories).
pub mod Category
pub mod Table
pub mod Requests
pub mod Names
mod Tests
