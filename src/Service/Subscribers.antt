-- ===== src/Service/Subscribers.antt =====
-- internal/service/project_subscriber.go and document_subscriber.go: the handlers of events.
pub mod Roles
pub mod Diff
pub mod Settings
pub mod Invites
pub mod Content
