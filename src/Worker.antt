-- ===== src/Worker.antt =====
-- packages/worker: each file is a module, or a part of core/worker.ts.
pub mod Config
pub mod Retry
pub mod Batch
pub mod Metrics
pub mod Execute
pub mod Loop
pub mod Scheduler
pub mod Identity
pub mod Cluster
