-- ===== src/Scorer.antt =====
-- internal/scorer: from submits, flags and overrides to scores and standings.
pub mod Status
pub mod Titles
pub mod Types
pub mod Best
pub mod Points
pub mod User
pub mod Providers
pub mod Board
pub mod Copies
