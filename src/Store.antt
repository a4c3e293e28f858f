-- ===== src/Store.antt =====
-- python/peercache/store.py: `PeerCacheStore`, in parts.
pub mod Keys
pub mod Pack
pub mod Cache
pub mod Exists
pub mod Slots
pub mod P2p
pub mod Fetch
