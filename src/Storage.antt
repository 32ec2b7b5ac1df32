-- ===== src/Storage.antt =====
-- src/app/storage: the keys of a job's files.
pub mod Paths
