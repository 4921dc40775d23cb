-- ===== src/Scripts/AdminDelete.antt =====
-- scripts/admin-delete-project/main.go: the removal of projects that the API refuses to delete.
pub mod Audit
pub mod Execute
pub mod Run
