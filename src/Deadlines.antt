-- ===== src/Deadlines.antt =====
-- internal/deadlines: assignments with deadlines, scoring policies and groups, and their fetcher.
pub mod Policy
pub mod Date
pub mod Types
pub mod Build
pub mod Fetcher
