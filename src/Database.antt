-- ===== src/Database.antt =====
-- backend/internal/database/database.go
pub mod Setup
pub mod Seed
pub mod Connect
