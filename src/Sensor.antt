-- ===== src/Sensor.antt =====
-- internal/sensor/sensor.go: the flows of the kernel map are reported to the audit server.
pub mod Types
pub mod Clock
pub mod Setup
pub mod Flush
pub mod Run
pub mod Tests
