-- ===== src/Tests/Storage.antt =====
-- Runs of python/peercache/storage_server.py on a pool of ten bytes, and the witnesses of its theorems.
use peer_cache.Base.{
  ℕ, All, true, some, none, ◌≡◌, refl, eq_string, String, Bool, false, List, [], ◌∷◌, ◌+◌,
}
use peer_cache.Base.Dict
use peer_cache.Base.Dict.{Dict, Unique}
use peer_cache.Types.{DataLocation}
use peer_cache.Pool.{
  contains, init, reserve, admit, allocate, publish, take_free, pop_last, bump_or_evict, admit_copy,
  insert, address_of, touch, give_free, evict_loop, drop_oldest, take_slot,
}
use peer_cache.Storage.Ingest.{
  on_ingest, ingest_pages, ingest_page, ingest_data, pool_publish, keep_page, reconcile, reconciled,
  republish,
}
use peer_cache.Storage.Republish.{renewed, get-republish}
use peer_cache.Storage.Honest.Replay.{recorded, replay, apply_effect, put_all}
use peer_cache.Storage.Honest.Remote.{PromotesOne, serve_all-current}
use peer_cache.Pool.Operations.{init-IsValid}
use peer_cache.Storage.{
  resident_location, StorageServer, put_some, emit, after_evict, write_through, on_promote,
  ensure_resident, promote_pages, promote_page, publish_page, promoted_page, read_disk, misses,
  delete_some, on_pool_evict, evict_effects, evict_entries, evict_entry, disk_location,
}
use peer_cache.DiskStore.{absent, get, entry_file, page_of}
use peer_cache.Base.Bytes.{unpack_be}
use peer_cache.Storage.Requests.{Request, promote, ingest, serve, serve_all}

abbrev server : StorageServer
server = record {
  node_id = "n1";
  endpoint = "10.0.0.1:9";
  rail_endpoints = [];
  pool = init 1000 10 7 [];
  memory = λ a. 0;
  disk = none;
  key_len = [];
  effects = [];
}

-- A page that does not fit the pool is refused, and the pool is as it was.
too_large : (reserve "b" 20 (init 1000 10 7 [])).addr ≡ none
unfolding reserve init admit allocate Dict.get
too_large = refl

abbrev never : String → Bool
never key = false

-- A client pushes two pages that fit the pool together.
abbrev pushes : List Request
pushes = ingest never (("a", some (1 ∷ 2 ∷ 3 ∷ [])) ∷ ("b", some (4 ∷ 5 ∷ [])) ∷ []) ∷ []

a_location : DataLocation
a_location = resident_location server 1000 3

a_recorded : Dict.get "a" (recorded (serve_all (λ key. 0) pushes server)) ≡ some a_location
unfolding a_location resident_location recorded replay serve_all serve on_ingest ingest_pages
    ingest_page ingest_data pool_publish publish allocate take_free pop_last bump_or_evict
    admit_copy insert keep_page reconcile reconciled address_of touch put_some emit after_evict
    apply_effect put_all init Dict.get Dict.put Dict.get_or Dict.move_to_end Dict.remove
    write_through
a_recorded = refl

a_resident : a_location.resident ≡ true
unfolding a_location resident_location
a_resident = refl

one_at_most : All PromotesOne pushes
one_at_most = (tt, tt)

serve_all-current_example :
    (page : ℕ × ℕ) × (Dict.get "a" (serve_all (λ key. 0) pushes server).pool.entries ≡ some page)
    × (a_location.remote_addr ≡ (serve_all (λ key. 0) pushes server).pool.base + page.0)
serve_all-current_example =
    serve_all-current (λ key. 0) pushes server "a" a_location refl one_at_most a_recorded a_resident

-- Two pages on the disk, and a pool with room for one.
abbrev full_server : StorageServer
full_server = record server {
  pool = init 1000 2 7 [];
  disk = some record {
    max_bytes = 100;
    index = ("a", ("f", 2)) ∷ ("b", ("g", 2)) ∷ [];
    used = 4;
    inflight = [];
    writes_since_flush = 0;
    queue = [];
    running = true;
    files = ("f", 0 ∷ 0 ∷ 0 ∷ 1 ∷ 97 ∷ 1 ∷ 2 ∷ []) ∷ ("g", 0 ∷ 0 ∷ 0 ∷ 1 ∷ 98 ∷ 3 ∷ 4 ∷ []) ∷ [];
    index_file = absent;
  };
  key_len = ("a", 2) ∷ ("b", 2) ∷ [];
}

abbrev after_promotions : StorageServer
after_promotions = serve_all (λ key. 0) (promote ("a" ∷ "b" ∷ []) ∷ []) full_server

-- One promotion of both leaves a resident location of the first in the directory, at the place of
-- the second: its page has been evicted.
stale_promotion :
    (Dict.get "a" (recorded after_promotions) ≡ some (resident_location full_server 1000 2))
    × (contains "a" after_promotions.pool ≡ false)
unfolding resident_location recorded replay serve_all serve on_promote ensure_resident promote_pages
    promote_page publish_page promoted_page read_disk get entry_file page_of unpack_be misses
    delete_some publish allocate take_free give_free pop_last bump_or_evict evict_loop drop_oldest
    take_slot admit_copy insert address_of touch put_some emit after_evict on_pool_evict
    evict_effects evict_entries evict_entry disk_location apply_effect put_all init contains
    Dict.has Dict.get Dict.put Dict.get_or Dict.move_to_end Dict.remove
stale_promotion = (refl, refl)

lengths_unique : Unique full_server.key_len
unfolding Dict.get
lengths_unique = (refl, (refl, tt))

get-republish_example :
    Dict.get "a" (recorded (republish full_server))
    ≡ renewed full_server
        (Dict.get "a" full_server.pool.entries)
        full_server.disk
        (Dict.get "a" full_server.key_len)
        (Dict.get "a" (recorded full_server))
get-republish_example = get-republish full_server "a" (init-IsValid 1000 2 7 []) lengths_unique
