-- ===== src/Core.antt =====
-- shaperail-core: the values, errors, resource schemas and endpoint specifications that the other
-- crates share. The modules that use them name the children.
pub mod Json
pub mod Error
pub mod Schema
pub mod Endpoint
pub mod Resource
