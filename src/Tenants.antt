-- ===== src/Tenants.antt =====
-- The tenants, which are the businesses that the server works for (src/context/tenants).
pub mod Tenant
pub mod Table
pub mod Requests
pub mod Uniqueness
pub mod Dates
mod Tests
