-- ===== src/Tests.antt =====
-- The theorems at concrete inputs.
mod Data
mod Claims
mod Batches
mod Publishing
mod Histories
mod Inboxes
mod Clients
mod Database
mod MysqlAdapter
mod Processes
mod MigrationRuns
