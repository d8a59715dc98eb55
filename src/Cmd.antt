-- ===== src/Cmd.antt =====
-- The programs cmd/audit-server and cmd/audit-sensor.
pub mod AuditServer
pub mod AuditSensor
pub mod Tests
