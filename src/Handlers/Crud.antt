-- ===== src/Handlers/Crud.antt =====
-- shaperail-runtime/src/handlers/crud.rs: the request handlers.
pub mod Base
pub mod Steps
pub mod Authorised
pub mod Read
pub mod Write
pub mod Bulk
mod Examples
