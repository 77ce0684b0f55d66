-- ===== src/Postgres.antt =====
-- packages/db-adapter-postgres: each file is a module of the package's src folder.
pub mod Errors
pub mod EventRepository
pub mod EventService
pub mod Inbox
pub mod Maintenance
