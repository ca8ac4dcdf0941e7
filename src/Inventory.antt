-- ===== src/Inventory.antt =====
-- The inventory (src/context/inventory): batches, the item that holds them, the minimum of a branch, the
-- tables and the use cases.
pub mod Batch
pub mod Drain
pub mod Event
pub mod Item
pub mod Stock
pub mod Minimum
pub mod Repository
pub mod UseCase
pub mod Catalogue
pub mod Arrival
pub mod Thousandths
pub mod Samples
mod Tests
mod EntryTests
