-- ===== src/Store.antt =====
-- internal/store: the tables of jobs and generations, and the operations on them.
pub mod Sql
pub mod Schema
pub mod Domains
pub mod Jobs
pub mod Generations
pub mod Grants
pub mod Reports
pub mod Audit
mod Tests
