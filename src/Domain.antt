-- ===== src/Domain.antt =====
-- internal/domain: the errors, the data model, the messages and the interfaces between the service
-- and what it runs on.
pub mod Error
pub mod Model
pub mod Message
pub mod Repository
