-- ===== src/Web/Handlers.antt =====
-- backend/internal/handler
pub mod Resource
pub mod Reservoir
pub mod Gate
pub mod Directive
pub mod Confirmation
pub mod System
pub mod Effects
pub mod Exact
pub mod Calls
