-- ===== src/System.antt =====
-- The four services together: the write requests, and what a sequence of them does to the database.
-- backend/internal/router/router.go wires the services to one another and to one database.
pub mod Changes
pub mod Serve
pub mod Evidence
pub mod Kinds
pub mod Trail
pub mod TwoPerson
