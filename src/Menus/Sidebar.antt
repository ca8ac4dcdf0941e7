-- ===== src/Menus/Sidebar.antt =====
-- What the side bar shows, and that the builder shows it.
pub mod Levels
pub mod Loop
pub mod Reading
