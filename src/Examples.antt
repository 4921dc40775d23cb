-- ===== src/Examples.antt =====
-- Tests of the definitions on concrete data, and the theorems applied to it.
mod Sample
mod Payloads
mod Store
mod Errors
mod Stale
mod Contents
mod Consistency
mod Rename
mod Removal
mod Forms
mod Requests
mod Events
mod Endpoints
