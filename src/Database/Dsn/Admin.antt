-- ===== src/Database/Dsn/Admin.antt =====
-- The maintenance DSN (internal/db/database.go: `pgAdminDSN`).
