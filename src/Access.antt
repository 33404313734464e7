-- ===== src/Access.antt =====
-- The access control service of backend/snackportal2: `Surface` has the enumerated operations and
-- the request context, `Policy` the decision, `Rules` what the decision guarantees.
pub mod Surface
pub mod Policy
pub mod Lawful
pub mod Rules
mod Tests
