-- ===== src/Movements.antt =====
-- The ledger of the inventory (src/context/inventory-movements): one movement of stock, the use case
-- that records it, and the handlers that turn the events of the inventory into movements.
pub mod Movement
pub mod Handlers
pub mod Trace
pub mod Recorded
pub mod Audit
pub mod Tests
