-- ===== src/Db.antt =====
-- internal/db/db.go over a model of the MySQL tables that its statements read and write.
pub mod Collation
pub mod Tables
pub mod Query
pub mod Monad
pub mod Identity
pub mod VpnSessions
pub mod Resources
pub mod Matching
pub mod Flows
pub mod Search
pub mod Audit
pub mod Statistics
pub mod Frame
pub mod Queries
pub mod Names
pub mod Setup
pub mod Reports
pub mod Tests
