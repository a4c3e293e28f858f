-- ===== src/Storage/Requests.antt =====
-- python/peercache/storage_server.py: the handlers of `StorageServer`, called in any order.
use peer_cache.Base.{ℕ, String, Option, Bool, List, [], ◌∷◌}
use peer_cache.Storage.{StorageServer, prepare_writes, commit_writes, on_promote, on_disk_evict}
use peer_cache.Storage.Ingest.{on_ingest}

-- One call of a handler, from the RPC server or from the disk's writer thread.
pub data Request : Type 0 where
  prepare : (String → Bool) → List (String × ℕ) → Request
  commit : List String → Request
  promote : List String → Request
  ingest : (String → Bool) → List (String × Option (List ℕ)) → Request
  disk_evict : List String → Request

unfoldable pub serve : (String → ℕ) → Request → StorageServer → StorageServer
unfolding prepare_writes commit_writes on_promote on_ingest on_disk_evict
serve buf (prepare exists pages) s = (prepare_writes exists pages s).1
serve buf (commit keys) s = (commit_writes keys s).1
serve buf (promote keys) s = (on_promote buf keys s).1
serve buf (ingest exists pages) s = (on_ingest buf exists pages s).1
serve buf (disk_evict keys) s = on_disk_evict keys s

unfoldable pub serve_all : (String → ℕ) → List Request → StorageServer → StorageServer
unfolding serve
serve_all buf [] s = s
serve_all buf (request ∷ rest) s = serve_all buf rest (serve buf request s)
