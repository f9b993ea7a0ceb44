-- ===== src/Database.antt =====
-- internal/database: the queries and writes that the service makes through gorm.
pub mod Gorm
pub mod Errors
pub mod Users
pub mod Submits
pub mod Flags
pub mod Overrides
