-- ===== src/Storage.antt =====
-- python/peercache/storage_server.py: the pool and disk handlers of `StorageServer`.
-- The calls that a handler makes of the directory client are recorded, in order, as effects; the
-- answer of `directory.exists` is the argument `exists`. A buffer that a handler allocates is at
-- the address `buf` gives for its key.
pub mod Commit
pub mod Ingest
pub mod Requests
pub mod Honest
pub mod Republish
pub mod Promote
use peer_cache.Base.{
  ℕ, zero, suc, ◌+◌, String, Option, none, some, Bool, true, false, List, [], ◌∷◌, ◌++◌, map,
  length, ◌==◌, eq_string, eq_ℕ, ◌||◌, if◌then◌else◌, elem,
}
use peer_cache.Base.Memory.{Memory, store, string_at}
use peer_cache.Base.Dict
use peer_cache.Base.Dict.{Dict}
use peer_cache.Types.{DataLocation}
use peer_cache.Pool
use peer_cache.Pool.{Pool}
use peer_cache.DiskStore
use peer_cache.DiskStore.{DiskStore}

pub data Effect : Type 0 where
  put_entries : Dict String DataLocation → Effect
  delete_keys : List String → Effect

pub record StorageServer : Type 0 where
  pub node_id : String
  pub endpoint : String
  pub rail_endpoints : List String
  pub pool : Pool
  pub memory : Memory
  pub disk : Option DiskStore
  pub key_len : Dict String ℕ
  pub effects : List Effect

unfoldable pub resident_location : StorageServer → ℕ → ℕ → DataLocation
resident_location s addr len = record {
  node_id = s.node_id;
  rdma_endpoint = s.endpoint;
  remote_addr = addr;
  rkey = s.pool.rkey;
  length = len;
  resident = true;
  rail_endpoints = s.rail_endpoints;
  rail_rkeys = s.pool.rkeys;
}

-- A page that is on the disk alone.
unfoldable pub disk_location : StorageServer → ℕ → DataLocation
disk_location s len = record {
  node_id = s.node_id;
  rdma_endpoint = s.endpoint;
  remote_addr = 0;
  rkey = 0;
  length = len;
  resident = false;
  rail_endpoints = [];
  rail_rkeys = [];
}

unfoldable pub emit : Effect → StorageServer → StorageServer
emit e s = record s { effects = s.effects ++ e ∷ [] }

-- `if entries: directory.put(entries)`
unfoldable pub put_some : Dict String DataLocation → StorageServer → StorageServer
unfolding emit
put_some [] s = s
put_some (e ∷ entries) s = emit (put_entries (e ∷ entries)) s

unfoldable pub evict_entry :
    StorageServer → String → Option ℕ → Dict String DataLocation → Dict String DataLocation
evict_entry s k none entries = entries
evict_entry s k (some len) entries = Dict.put k (disk_location s len) entries

unfoldable pub evict_entries :
    StorageServer → List String → Dict String DataLocation → Dict String DataLocation
unfolding evict_entry
evict_entries s [] entries = entries
evict_entries s (k ∷ ks) entries =
    evict_entries s ks (evict_entry s k (Dict.get k s.key_len) entries)

unfoldable pub evict_effects : Option DiskStore → List String → StorageServer → StorageServer
unfolding emit put_some
evict_effects none evicted s = emit (delete_keys evicted) s
evict_effects (some d) evicted s = put_some (evict_entries s evicted []) s

unfoldable pub on_pool_evict : List String → StorageServer → StorageServer
unfolding evict_effects
on_pool_evict evicted s = evict_effects s.disk evicted s

-- `if evicted and self._on_evict is not None`, in the pool's methods
unfoldable pub after_evict : List String → StorageServer → StorageServer
unfolding on_pool_evict
after_evict [] s = s
after_evict (k ∷ ks) s = on_pool_evict (k ∷ ks) s

unfoldable pub pop_lengths : List String → Dict String ℕ → Dict String ℕ
pop_lengths [] lengths = lengths
pop_lengths (k ∷ ks) lengths = pop_lengths ks (Dict.remove k lengths)

unfoldable pub on_disk_evict : List String → StorageServer → StorageServer
unfolding emit pop_lengths
on_disk_evict evicted s =
    emit (delete_keys evicted) (record s { key_len = pop_lengths evicted s.key_len })

-- What `_slot_dict` returns: the target of a remote write.
pub record Slot : Type 0 where
  pub key : String
  pub location : DataLocation

unfoldable pub slot_dict : StorageServer → String → ℕ → ℕ → Slot
slot_dict s key addr len = record { key = key; location = resident_location s addr len }

unfoldable pub reserved_slot : StorageServer → String → ℕ → Option ℕ → Option Slot
unfolding slot_dict
reserved_slot s key len none = none
reserved_slot s key len (some addr) = some (slot_dict s key addr len)

unfoldable pub reserve_page : String → ℕ → StorageServer → Option Slot × StorageServer
unfolding reserved_slot after_evict
reserve_page key len s =
    let r = Pool.reserve key len s.pool in
    let s' = after_evict r.evicted (record s { pool = r.pool }) in
    (reserved_slot s' key len r.addr, s')

unfoldable pub known_page :
    String → ℕ → Option (ℕ × ℕ) → StorageServer → Option Slot × StorageServer
unfolding slot_dict reserve_page
known_page key len none s = reserve_page key len s
known_page key len (some al) s = (some (slot_dict s key al.0 al.1), s)

-- One round of `_on_data_prepare_writes`.
unfoldable pub prepare_page :
    (String → Bool) → String × ℕ → StorageServer → Option Slot × StorageServer
unfolding known_page reserve_page
prepare_page exists (key, len) s =
    if key == "" || len == 0
    then (none, s)
    else if exists key
    then (let (al, pool) = Pool.address_of key s.pool in
        known_page key len al (record s { pool = pool }))
    else reserve_page key len s

unfoldable pub prepare_writes :
    (String → Bool) → List (String × ℕ) → StorageServer → List (Option Slot) × StorageServer
prepare_writes exists [] s = ([], s)
prepare_writes exists (page ∷ pages) s =
    let (slot, s') = prepare_page exists page s in
    let (slots, s'') = prepare_writes exists pages s' in (slot ∷ slots, s'')

-- `self._disk.put(key, data)`, where there is a disk
unfoldable pub write_through : String → List ℕ → Option DiskStore → Option DiskStore
write_through key page none = none
write_through key page (some d) = some (DiskStore.put key page d)

-- One round of `_on_data_commit_writes`, for what `address_of` returns.
unfoldable pub commit_page :
    String
    → Option (ℕ × ℕ)
    → Dict String DataLocation
    → StorageServer
    → Bool × Dict String DataLocation × StorageServer
unfolding write_through
commit_page key none entries s = (false, entries, s)
commit_page key (some al) entries s = (
  true,
  Dict.put key (resident_location s al.0 al.1) entries,
  record s {
    key_len = Dict.put key al.1 s.key_len;
    disk = write_through key (string_at al.0 al.1 s.memory) s.disk;
  },
)

unfoldable pub commit_pages :
    List String
    → Dict String DataLocation
    → StorageServer
    → List Bool × Dict String DataLocation × StorageServer
unfolding commit_page
commit_pages [] entries s = ([], entries, s)
commit_pages (key ∷ keys) entries s =
    let (al, pool) = Pool.address_of key s.pool in
    let (ok, entries', s') = commit_page key al entries (record s { pool = pool }) in
    let (results, entries'', s'') = commit_pages keys entries' s' in (ok ∷ results, entries'', s'')

unfoldable pub commit_writes : List String → StorageServer → List Bool × StorageServer
unfolding commit_pages put_some
commit_writes keys s =
    let (results, entries, s') = commit_pages keys [] s in (results, put_some entries s')

unfoldable pub read_disk : String → Option DiskStore → Option (List ℕ) × Option DiskStore
read_disk key none = (none, none)
read_disk key (some d) = let (page, d') = DiskStore.get key d in (page, some d')

unfoldable pub delete_some : List String → StorageServer → StorageServer
unfolding emit
delete_some [] s = s
delete_some (k ∷ ks) s = emit (delete_keys (k ∷ ks)) s

-- `[k for k, loc in zip(keys, locs) if loc is None]`
unfoldable pub misses : List String → List (Option DataLocation) → List String
misses (k ∷ ks) (none ∷ locs) = k ∷ misses ks locs
misses (k ∷ ks) (some loc ∷ locs) = misses ks locs
misses _ _ = []

-- What `_ensure_resident` keeps of a key that is published again.
unfoldable pub promoted_page :
    String
    → ℕ
    → Option ℕ
    → Dict String DataLocation
    → StorageServer
    → Option DataLocation × Dict String DataLocation × StorageServer
promoted_page key len none promoted s = (none, promoted, s)
promoted_page key len (some addr) promoted s =
    let loc = resident_location s addr len in
    (some loc, Dict.put key loc promoted, record s { key_len = Dict.put key len s.key_len })

module _ (buf : String → ℕ) where
  unfoldable pub publish_page :
      String
      → Option (List ℕ)
      → Dict String DataLocation
      → StorageServer
      → Option DataLocation × Dict String DataLocation × StorageServer
  unfolding promoted_page after_evict
  publish_page key none promoted s = (none, promoted, s)
  publish_page key (some page) promoted s =
      let r = Pool.publish key (buf key) (length page) s.pool (store (buf key) page s.memory) in
      promoted_page key (length page) r.addr promoted
        (after_evict r.evicted (record s { pool = r.pool; memory = r.memory }))

  unfoldable pub promote_page :
      String
      → Option (ℕ × ℕ)
      → Dict String DataLocation
      → StorageServer
      → Option DataLocation × Dict String DataLocation × StorageServer
  unfolding publish_page read_disk
  promote_page key (some al) promoted s = (some (resident_location s al.0 al.1), promoted, s)
  promote_page key none promoted s =
      let (page, disk) = read_disk key s.disk in
      publish_page key page promoted (record s { disk = disk })

  -- The loop of `_ensure_resident`.
  unfoldable pub promote_pages :
      List String
      → Dict String DataLocation
      → StorageServer
      → List (Option DataLocation) × Dict String DataLocation × StorageServer
  unfolding promote_page
  promote_pages [] promoted s = ([], promoted, s)
  promote_pages (key ∷ keys) promoted s =
      let (al, pool) = Pool.address_of key s.pool in
      let (loc, promoted', s') = promote_page key al promoted (record s { pool = pool }) in
      let (locs, promoted'', s'') = promote_pages keys promoted' s' in (loc ∷ locs, promoted'', s'')

  unfoldable pub ensure_resident :
      List String → StorageServer → List (Option DataLocation) × StorageServer
  unfolding promote_pages put_some
  ensure_resident keys s =
      let (locs, promoted, s') = promote_pages keys [] s in (locs, put_some promoted s')

  unfoldable pub on_promote :
      List String → StorageServer → List (Option DataLocation) × StorageServer
  unfolding ensure_resident misses delete_some
  on_promote keys s =
      let (locs, s') = ensure_resident keys s in (locs, delete_some (misses keys locs) s')
