-- ===== src/Service.antt =====
-- backend/internal/service: the business rules.
pub mod Security
pub mod Records
pub mod Reservoir
pub mod Gate
pub mod Confirmation
pub mod Directive
pub mod Login
