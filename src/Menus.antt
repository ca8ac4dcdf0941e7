-- ===== src/Menus.antt =====
-- The menus of the side bar (src/context/menus).
pub mod Menu
pub mod Builder
pub mod Sidebar
pub mod Table
pub mod Tests
