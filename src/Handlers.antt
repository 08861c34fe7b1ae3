-- ===== src/Handlers.antt =====
-- shaperail-runtime/src/handlers: what a request passes through on its way to the store and back.
pub mod Validate
pub mod Params
pub mod State
pub mod Tenant
pub mod Controller
pub mod References
pub mod Response
pub mod Crud
mod Samples
