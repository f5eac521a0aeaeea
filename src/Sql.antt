-- ===== src/Sql.antt =====
-- SQL of changes, internal/service/flashback_sql.go.
pub mod Words
pub mod Clause
pub mod Statement
pub mod Quote
pub mod Reverse
mod Tests
