-- ===== src/Http.antt =====
-- cmd/project-api: the endpoints of the HTTP API.
pub mod Errors
pub mod Payloads
pub mod Projects
pub mod Contents
pub mod Download
pub mod Multipart
pub mod Authentication
pub mod Fallback
pub mod Raised
pub mod Codes
pub mod Refusals
pub mod Statuses
