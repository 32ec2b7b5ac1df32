-- ===== src/Worker.antt =====
-- src/app/worker: the process that runs the jobs that were enqueued.
pub mod Runner
mod Tests
