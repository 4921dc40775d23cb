-- ===== src/Service/Projects.antt =====
-- internal/service/project_operations.go: the operations on projects.
pub mod Validate
pub mod Get
pub mod Create
pub mod Update
pub mod Delete
pub mod Rejections
pub mod Stale
