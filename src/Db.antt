-- ===== src/Db.antt =====
-- shaperail-runtime/src/db: the query parameters of a list request and the SQL that they add.
mod Examples
pub mod Filter
pub mod Sort
pub mod Search
pub mod Base64
pub mod Query
pub mod Pagination
