-- ===== src/Branches.antt =====
-- The branches of a tenant (src/context/branch).
pub mod Branch
pub mod Like
pub mod Table
pub mod Requests
pub mod Names
mod Tests
