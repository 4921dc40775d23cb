-- ===== src/Service.antt =====
-- internal/service: the operations that the API calls.
pub mod Api
pub mod Runtime
pub mod Pointers
pub mod Users
pub mod Converters
pub mod Core
pub mod Enrich
pub mod Wiring
pub mod Projects
pub mod Folders
pub mod Links
pub mod Documents
pub mod Email
pub mod Subscribers
pub mod Handlers
pub mod Trace
