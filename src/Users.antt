-- ===== src/Users.antt =====
-- The users of a business (src/context/user).
pub mod Failure
pub mod Values
pub mod User
pub mod Table
pub mod Requests
pub mod Account
pub mod Scope
pub mod Tests
