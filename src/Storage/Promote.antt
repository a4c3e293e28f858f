-- ===== src/Storage/Promote.antt =====
-- python/peercache/storage_server.py: `data_promote` of one page that the pool does not have.
use peer_cache.Base.{ℕ, ◌≡◌, String, Option, none, some, true, List, [], ◌∷◌, length, eq_string}
use peer_cache.Base.Memory.{store, string_at}
use peer_cache.Base.Dict
use peer_cache.Base.Dict.{Dict}
use peer_cache.Types.{DataLocation}
use peer_cache.Pool
use peer_cache.Pool.{Pool}
use peer_cache.Storage.{StorageServer, put_some, delete_some, misses}
use peer_cache.Storage.Honest.Replay.{recorded}

module _ (buf : String → ℕ) (k : String) where
  -- The pool's answer for the page of the key.
  abbrev pub placed : List ℕ → StorageServer → Pool.Published
  placed page s = Pool.publish k (buf k) (length page) s.pool (store (buf k) page s.memory)

  abbrev Promotion : Type 0
  Promotion = Option DataLocation × Dict String DataLocation × StorageServer

  -- The answer for one key, with the calls of the directory.
  abbrev finish : Promotion → List (Option DataLocation) × StorageServer
  finish t = (t.0 ∷ [], delete_some (misses (k ∷ []) (t.0 ∷ [])) (put_some t.1 t.2))

  -- A page of the pool, told to the reader and to the directory.
  pub record IsServed (page : List ℕ) (loc : DataLocation)
      (done : List (Option DataLocation) × StorageServer) : Type 0 where
    pub answered : done.0 ≡ some loc ∷ []
    pub resident : loc.resident ≡ true
    pub sized : loc.length ≡ length page
    pub bytes : string_at loc.remote_addr (length page) done.1.memory ≡ page
    pub told : Dict.get k (recorded done.1) ≡ some loc

  pub record IsRefused (done : List (Option DataLocation) × StorageServer) : Type 0 where
    pub answered : done.0 ≡ none ∷ []
    pub told : Dict.get k (recorded done.1) ≡ none
