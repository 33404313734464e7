-- ===== src/Importer.antt =====
-- The import service (backend/import_service): `Records` has the validation of a record, `Service` the
-- import as a unit of work.
pub mod Records
pub mod Jobs
pub mod Service
mod Tests
