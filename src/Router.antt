-- ===== src/Router.antt =====
-- The database router (backend/database_router).
pub mod Pool
pub mod Cache
pub mod Resolver
pub mod Route
mod Tests
mod RouteTests
