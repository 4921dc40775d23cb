-- ===== src/Nats.antt =====
-- internal/infrastructure/nats: the repository over the key-value buckets.
pub mod Kv
pub mod Laws
pub mod Memory
pub mod Repository
pub mod Projects
pub mod Links
pub mod Folders
pub mod Documents
pub mod Implementation
pub mod Users
pub mod Messages
