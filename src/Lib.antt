-- ===== src/Lib.antt =====
-- SnackPortal2: the control plane that decides whether a tenant's database may be routed to, the
-- router in front of the tenants' databases, the lineage chains in them, the imports into them, and
-- the authorization of the operations on them.
--
-- The program (backend/control_plane) keeps a registry of tenants, each with a database of its
-- own and a lifecycle state, and an audit trail. Its parts:
--   * the tenant registry (registry.py) owns registration and the administrative transitions;
--   * the verification gate (provisioning.py) is the only way to Ready: it probes the database,
--     asks the distinctness verifier (distinctness.py), records the evidence in the ledger, and
--     commits;
--   * the onboarding orchestrator (onboarding.py) runs registry, operator, applicator and gate
--     in order, resumes and recovers;
--   * the compensation service (recovery.py) drops a database, behind an ownership proof, and
--     the orphan scan of the same file reports which databases it would accept.
-- The router (backend/database_router) borrows connections to the tenants' databases from pools
-- (pool.py) that are keyed by the tenant and the version of its association: it determines a
-- target (router.py), resolves the tenant's view through a cache (resolver.py, cache.py), and
-- attempts one audit event for each request. The lineage service (backend/lineage_service) appends
-- a row with a keyed hash for each change of a tenant's data, and verifies, segments and pages the
-- chain of these rows. The access control service (backend/snackportal2/services/access_control)
-- allows or denies an enumerated operation to a principal. The import service
-- (backend/import_service) writes the records of a source to a tenant's database in batches, with
-- their lineage and a checkpoint in each batch's transaction, and replays or resumes an import.
--
-- Which file models which part. Common/ has Python's strings as lists of code points
-- (Common/Text) and dicts in insertion order (Common/Dict). Control/Records has the record
-- shapes of records.py, secrets.py and events.py; Control/World the state that a service sees
-- and its exceptions; Control/Ports the ports; Control/Store the tables of in_memory_store.py
-- and audit.py; Control/Registry, Control/Distinctness, Control/Provisioning,
-- Control/Onboarding, Control/Census and Control/Recovery the modules above, a definition to a
-- method, under the method's name. A method with early returns is split where it returns, into
-- definitions that its comment names. Control/Scan has the orphan scan, Router/Pool the
-- connection manager, Router/Resolver and Router/Route the resolver and the router, Lineage/ the
-- lineage service, a module to a file of the source, Access/ the access control service, and
-- Importer/ the import service (its tables in Importer/Jobs, its validation in Importer/Records).
-- Control/Operations has all the operations of the control plane as one alphabet. Control/Trail
-- states the lifecycle graph of contracts/IC-002 apart from the code, with the invariant of the
-- tables and its preservation.
--
-- Other writers. A service is not alone: the model's world has a list of commits of other
-- writers, any functions on the shared tables, and the next one takes effect whenever a service
-- reads or swaps, and before the audit record and before the write of a registration, which is an
-- unguarded upsert. A versioned write and its audit record are one step, as in the store's
-- transaction. The theorems on sessions hold for every list of lawful commits
-- (Control.Trail.Sound.IsLawful): each keeps the invariant, also while a registration has its audit
-- record and not yet its tenant record; writes with a higher version; adds to the audit trail; and
-- registers no tenant. The last condition is needed: a registration that read before another writer
-- stored the same tenant replaces that record, whatever its state, which
-- Control.Registry.Admission is about. So registrations are the session's own.
--
-- Parameters. The clock, the token factory, the database probe, the evidence provider, the
-- provisioning operator, the schema applicator, the recovery inspection and router invalidation
-- are functions of the number of calls made before, and may raise at any call. Calls that
-- change something outside are recorded in order.
--
-- The connection manager's lock makes each of its operations one step; its clock, the health of
-- a connection and what the opening function does are parameters of the step.
--
-- The session that the lineage service reads and writes a tenant's database by
-- (backend/shared/session.py) is a parameter, with the behaviour that its comments document as
-- named hypotheses: a page has the matching rows past a cursor in the order of their numbers, up
-- to a limit, and an append adds the row or raises. The keyed hash, of which nothing is assumed, Python's decimal form of a
-- number and the secret store are parameters.
--
-- Fuel: the two endless loops over pages (the scan of a verification and the count of a segment)
-- take the number of their rounds; one more than the table has rows is enough. Every other loop
-- of the modelled code runs over a list.
--
-- The import service's target and lineage tables are any data behind the session's upsert and the
-- emission, which may raise; a rolled-back batch is the database as it stood before. Its calls on
-- the job tables outside a batch, the commit of a batch, and its audit sink, are taken to go through.
--
-- Not modelled: the API gateway and the authentication router, which authenticate a request and hand
-- it on to the parts above; the lifecycle service of the control plane (lifecycle.py), which no other
-- module constructs; the portability profiles; the other services of backend/snackportal2; the
-- adapters to PostgreSQL, HTTP and secret stores, which are I/O over libraries; log output; the
-- session provider of the router and its HTTP edges; the composition roots; and, in the control
-- plane, a failing audit sink (a failed append rolls the whole transaction back in the durable
-- store). The router's and the lineage service's sinks may fail.
pub mod Access
pub mod Common
pub mod Control
pub mod Importer
pub mod Lineage
pub mod Router
