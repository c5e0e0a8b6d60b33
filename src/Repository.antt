-- ===== src/Repository.antt =====
-- backend/internal/repository: what the services ask of the database.
pub mod Store
pub mod Directives
pub mod Confirmations
pub mod Lists
pub mod Audits
