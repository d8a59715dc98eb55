-- ===== src/Server.antt =====
-- internal/server/server.go: handlers that map a request and the state to an answer and a state.
pub mod PageData
pub mod Types
pub mod RateLimit
pub mod Login
pub mod Access
pub mod Sync
pub mod Admin
pub mod SensorApi
pub mod Format
pub mod Pages
pub mod Template
pub mod Csv
pub mod Views
pub mod Routes
pub mod Lifetime
pub mod Tests
