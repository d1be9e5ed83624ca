-- ===== src/Database.antt =====
-- internal/db/database.go: opening the database of the configuration. The drivers are parameters.
pub mod Dsn
pub mod Retry
