-- ===== src/Lineage.antt =====
-- The lineage service (backend/lineage_service): `Canonical` has the rows and their markers,
-- `Session` the ports to the tenant database, `Emit` the write path, `Verify` the verification of a
-- chain, `Segments` its segments, `Query` the paged reads, the graph and the retention decision.
pub mod Canonical
pub mod Session
pub mod Emit
pub mod Verify
pub mod Segments
pub mod Query
mod Tests
