-- ===== src/Shared.antt =====
-- The shared kernel (src/shared): quantities, money and their exceptions, over the decimal library.
pub mod Failure
pub mod Decimal
pub mod Quantity
pub mod Money
pub mod Status
pub mod Value
