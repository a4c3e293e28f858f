-- ===== src/Tests/P2p.antt =====
-- Runs of `_publish_p2p` of python/peercache/store.py on a pool of four bytes, and the witnesses of
-- its theorems.
use peer_cache.Base.{
  ℕ, ◌≡◌, refl, inl, arith, String, some, none, Bool, true, false, List, [], ◌∷◌, map, Distinct,
  All, eq_string,
}
use peer_cache.Base.Memory.{string_at}
use peer_cache.Base.Dict
use peer_cache.Types.{DataLocation}
use peer_cache.Pool.{
  init, allocate, publish, take_free, give_free, pop_last, bump_or_evict, evict_loop, drop_oldest,
  take_slot, admit_copy, insert, address_of, touch,
}
use peer_cache.Pool.Operations.{init-IsValid}
use peer_cache.Storage.{
  StorageServer, resident_location, disk_location, put_some, emit, after_evict, on_pool_evict,
  evict_effects, evict_entries, evict_entry, write_through,
}
use peer_cache.Storage.Ingest.{pool_publish, keep_page, reconcile, reconciled}
use peer_cache.Storage.Honest.Replay.{recorded, replay, apply_effect, put_all, delete_all}
use peer_cache.Store.Slots.Shared.{Page}
use peer_cache.Store.P2p.{publish_p2p, publish_pages, publish_page, publish_new}
use peer_cache.Store.P2p.ReadBack.{IsNew, publish_p2p-read}

abbrev node : StorageServer
node = record {
  node_id = "n1";
  endpoint = "10.0.0.1:9";
  rail_endpoints = [];
  pool = init 1000 4 7 [];
  memory = λ a. a;
  disk = none;
  key_len = [];
  effects = [];
}

abbrev page_at : String → ℕ → Page
page_at key ptr = record { key = key; ptr = ptr; size = 2 }

-- The third page takes the place of the first.
abbrev batch : List Page
batch = page_at "a" 50 ∷ page_at "b" 60 ∷ page_at "c" 70 ∷ []

abbrev existing : List Bool
existing = false ∷ false ∷ false ∷ []

abbrev published : List Bool × StorageServer
published = publish_p2p true existing batch node

-- A run of it.
abbrev c_location : DataLocation
c_location = resident_location node 1000 2

c_recorded :
    (published.0 ≡ true ∷ true ∷ true ∷ [])
    × (Dict.get "c" (recorded published.1) ≡ some c_location)
    × (Dict.get "a" (recorded published.1) ≡ some (disk_location node 2))
unfolding publish_p2p publish_pages publish_page publish_new pool_publish keep_page reconcile
    reconciled publish allocate take_free give_free pop_last bump_or_evict evict_loop drop_oldest
    take_slot admit_copy insert address_of touch put_some emit after_evict on_pool_evict
    evict_effects evict_entries evict_entry write_through resident_location disk_location recorded
    replay apply_effect put_all delete_all init Dict.get Dict.put Dict.get_or Dict.move_to_end
    Dict.remove
c_recorded = (refl, refl, refl)

c_resident : c_location.resident ≡ true
unfolding resident_location
c_resident = refl

batch_keys : Distinct (map (λ page. page.key) batch)
batch_keys = (refl, (refl, (refl, tt)))

batch-IsNew : All (IsNew node.pool) batch
unfolding init Dict.get
batch-IsNew =
    ((refl, inl (omega arith)), ((refl, inl (omega arith)), ((refl, inl (omega arith)), tt)))

publish_p2p-read_example :
    string_at c_location.remote_addr 2 published.1.memory ≡ string_at 70 2 node.memory
publish_p2p-read_example =
    publish_p2p-read true existing batch node 2 (page_at "c" 70) c_location refl
      (init-IsValid 1000 4 7 []) batch_keys batch-IsNew refl c_recorded.1 c_resident
