-- ===== src/Storage/Honest.antt =====
-- python/peercache/storage_server.py: what the directory tells of this server's pages, after the
-- calls of the directory that the handlers have made.
pub mod Replay
pub mod Steps
pub mod Pushed
pub mod Written
pub mod Remote
