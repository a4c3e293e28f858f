-- ===== src/Tests/Fetch.antt =====
-- Runs of `_fetch` of python/peercache/store.py over pages of the node's own, and the witnesses of
-- its theorems.
use peer_cache.Base.{
  ℕ, ◌≡◌, refl, inl, arith, String, Option, none, some, true, false, List, [], ◌∷◌, map, All,
  eq_string, eq_ℕ, ◌==◌, if◌then◌else◌,
}
use peer_cache.Base.Dict
use peer_cache.Types.{DataLocation}
use peer_cache.Pool.{init}
use peer_cache.Storage.{StorageServer, resident_location}
use peer_cache.Store.Cache.{
  Cache, init_cache, take_primed, pop_primed, miss_keys, resolve_misses, dir_get, fill, fresh_entry,
}
use peer_cache.Store.Slots.Shared.{Page}
use peer_cache.Store.Fetch.{away_at, owners, keys_at, place, is_at, fetch}
use peer_cache.Store.Fetch.Local.{Row, IsOwn, IsClear, locations, pages_of, Received, fetch_held}

abbrev node : StorageServer
node = record {
  node_id = "n1";
  endpoint = "10.0.0.1:9";
  rail_endpoints = [];
  pool = init 1000 4 7 [];
  memory = λ a. a;
  disk = none;
  key_len = [];
  effects = [];
}

abbrev page_at : String → ℕ → Page
page_at key ptr = record { key = key; ptr = ptr; size = 2 }

abbrev rows : List Row
rows =
    (page_at "a" 50, resident_location node 1000 2)
    ∷ (page_at "b" 60, resident_location node 1002 2)
    ∷ []

-- The directory's answer for these keys.
abbrev ask : List String → List (Option DataLocation)
ask keys = map (λ k. some (resident_location node (if k == "a" then 1000 else 1002) 2)) keys

abbrev no_cache : Cache
no_cache = init_cache 0 5 100

-- No peer answers, and no READ is served.
abbrev no_answer : String → List String → Option (List (Option DataLocation))
no_answer owner keys = none

answered : (take_primed ask 3 ("a" ∷ "b" ∷ []) no_cache).0 ≡ locations rows
unfolding take_primed pop_primed miss_keys resolve_misses dir_get fill fresh_entry init_cache
    Dict.get Dict.remove
answered = refl

rows-IsOwn : All (IsOwn node.node_id) rows
unfolding resident_location
rows-IsOwn = ((refl, refl, refl), ((refl, refl, refl), tt))

rows-IsClear : IsClear rows
unfolding resident_location
rows-IsClear = (((inl (omega arith), inl (omega arith)), tt), (tt, tt))

fetch_held_example :
    (let done =
        fetch
          (λ key. 0)
          no_answer
          ask
          3
          false
          (λ j. false)
          (λ ep a. 0)
          (pages_of rows)
          no_cache
          node in
      (done.0 ≡ true ∷ true ∷ []) × All (Received node.memory done.2.memory) rows)
fetch_held_example =
    fetch_held (λ key. 0) no_answer ask 3 (λ j. false) (λ ep a. 0) rows no_cache node answered
      rows-IsOwn rows-IsClear

abbrev far : DataLocation
far = record {
  node_id = "n2";
  rdma_endpoint = "10.0.0.2:9";
  remote_addr = 0;
  rkey = 0;
  length = 2;
  resident = false;
  rail_endpoints = [];
  rail_rkeys = [];
}

-- Two keys of one peer that are not resident: the peer is asked once, for both, and a key for which
-- it sends no answer keeps its location.
asked_once :
    (owners "n1" (some far ∷ none ∷ some far ∷ []) [] ≡ "n2" ∷ [])
    × (keys_at "n2" ("a" ∷ "b" ∷ "c" ∷ []) (some far ∷ none ∷ some far ∷ []) ≡ "a" ∷ "c" ∷ [])
    × (place "n2"
          (some (none ∷ []))
          (some far ∷ none ∷ some far ∷ [])
          (some far ∷ none ∷ some far ∷ [])
        ≡ none ∷ none ∷ some far ∷ [])
unfolding owners keys_at place is_at away_at
asked_once = (refl, refl, refl)
