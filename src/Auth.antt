-- ===== src/Auth.antt =====
-- Authentication (src/auth): the session aggregate, its table, the issuer of tokens, login, renewal,
-- logout and the guards that stand before every request.
pub mod Session
pub mod Store
pub mod World
pub mod Issuer
pub mod Login
pub mod Refresh
pub mod Logout
pub mod JwtGuard
pub mod TenantScope
pub mod Samples
mod Tests
mod GuardTests
