-- ===== src/Sync.antt =====
-- src/sync: the event mutex and the write locks of the file watcher.
pub mod Mutex
pub mod WriteLock
