-- ===== src/BranchConfigs.antt =====
-- The price and the availability of a product in a branch (src/context/product-branch-config).
pub mod Config
pub mod Requests
pub mod NeverEmpty
pub mod Tests
