-- ===== src/Gitlab.antt =====
-- internal/gitlab: project names, the import of pipelines and the making of projects.
pub mod Text
pub mod Names
pub mod Paging
pub mod Pipelines
pub mod Calls
pub mod Api
pub mod Projects
