-- ===== src/Storage/Ingest.antt =====
-- python/peercache/storage_server.py: the pages that clients push as bytes, and the directory
-- entries that are put again after a change of the membership. Data that are not bytes are left
-- out; what `directory.put` raises is ignored by the callers.
use peer_cache.Base.{
  ℕ, zero, suc, String, Option, none, some, Bool, true, false, List, [], ◌∷◌, length, take, drop,
  ◌==◌, eq_string, if◌then◌else◌,
}
use peer_cache.Base.Memory.{store}
use peer_cache.Base.Dict
use peer_cache.Base.Dict.{Dict}
use peer_cache.Types.{DataLocation}
use peer_cache.Pool
use peer_cache.Storage.{
  StorageServer, put_entries, emit, put_some, resident_location, disk_location, after_evict,
  write_through,
}

-- `self._pool.publish`, with the callback for the pages that it evicts.
unfoldable pub pool_publish : String → ℕ → ℕ → StorageServer → Option ℕ × StorageServer
unfolding after_evict
pool_publish key src len s =
    let r = Pool.publish key src len s.pool s.memory in
    (r.addr, after_evict r.evicted (record s { pool = r.pool; memory = r.memory }))

-- What is kept of a page that has been published at an address.
unfoldable pub keep_page :
    String
    → List ℕ
    → ℕ
    → Option ℕ
    → Dict String DataLocation
    → StorageServer
    → Bool × Dict String DataLocation × StorageServer
unfolding write_through
keep_page key page len none entries s = (false, entries, s)
keep_page key page len (some addr) entries s = (
  true,
  Dict.put key (resident_location s addr len) entries,
  record s { disk = write_through key page s.disk; key_len = Dict.put key len s.key_len },
)

-- The entry of a key, for what `address_of` returns at the end of the batch.
unfoldable pub reconciled : StorageServer → String → Option (ℕ × ℕ) → DataLocation → DataLocation
reconciled s key none loc = disk_location s (Dict.get_or key s.key_len loc.length)
reconciled s key (some al) loc = record loc { remote_addr = al.0 }

unfoldable pub reconcile :
    Dict String DataLocation → StorageServer → Dict String DataLocation × StorageServer
unfolding reconciled
reconcile [] s = ([], s)
reconcile ((key, loc) ∷ entries) s =
    let (al, pool) = Pool.address_of key s.pool in
    let (rest, s') = reconcile entries (record s { pool = pool }) in
    ((key, reconciled s key al loc) ∷ rest, s')

module _ (buf : String → ℕ) (exists : String → Bool) where
  unfoldable pub ingest_data :
      String
      → List ℕ
      → Dict String DataLocation
      → StorageServer
      → Bool × Dict String DataLocation × StorageServer
  unfolding pool_publish keep_page
  ingest_data key page entries s =
      let (addr, s') =
        pool_publish key (buf key) (length page)
          (record s { memory = store (buf key) page s.memory }) in
      keep_page key page (length page) addr entries s'

  unfoldable pub ingest_page :
      String × Option (List ℕ)
      → Dict String DataLocation
      → StorageServer
      → Bool × Dict String DataLocation × StorageServer
  unfolding ingest_data
  ingest_page (key, none) entries s = (false, entries, s)
  ingest_page (key, some page) entries s =
      if key == ""
      then (false, entries, s)
      else if exists key
      then (true, entries, s)
      else ingest_data key page entries s

  unfoldable pub ingest_pages :
      List (String × Option (List ℕ))
      → Dict String DataLocation
      → StorageServer
      → List Bool × Dict String DataLocation × StorageServer
  unfolding ingest_page
  ingest_pages [] entries s = ([], entries, s)
  ingest_pages (page ∷ pages) entries s =
      let (ok, entries', s') = ingest_page page entries s in
      let (results, entries'', s'') = ingest_pages pages entries' s' in
      (ok ∷ results, entries'', s'')

  unfoldable pub on_ingest :
      List (String × Option (List ℕ)) → StorageServer → List Bool × StorageServer
  unfolding ingest_pages reconcile put_some
  on_ingest pages s =
      let (results, entries, s') = ingest_pages pages [] s in
      let (entries', s'') = reconcile entries s' in (results, put_some entries' s'')

-- `entries[key] = self._resident_location(addr, length)`, for each page of the snapshot
unfoldable pub snapshot_entries :
    StorageServer → List (String × ℕ × ℕ) → Dict String DataLocation → Dict String DataLocation
snapshot_entries s [] entries = entries
snapshot_entries s ((key, addr, len) ∷ pages) entries =
    snapshot_entries s pages (Dict.put key (resident_location s addr len) entries)

-- `{k: ln for k, ln in self._key_len.items() if k not in entries}`
unfoldable pub disk_only : Dict String DataLocation → Dict String ℕ → Dict String ℕ
disk_only entries [] = []
disk_only entries ((k, len) ∷ lengths) =
    let rest = disk_only entries lengths in if Dict.has k entries then rest else (k, len) ∷ rest

unfoldable pub disk_entries :
    StorageServer → Dict String ℕ → Dict String DataLocation → Dict String DataLocation
disk_entries s [] entries = entries
disk_entries s ((k, len) ∷ lengths) entries =
    disk_entries s lengths (Dict.put k (disk_location s len) entries)

unfoldable pub republished : StorageServer → Dict String DataLocation
unfolding snapshot_entries disk_only disk_entries
republished s =
    let entries = snapshot_entries s (Pool.snapshot s.pool) [] in
    elim s.disk [ none ↦ entries | some d ↦ disk_entries s (disk_only entries s.key_len) entries ]

-- `for lo in range(0, len(keys), 512)`, with the chunks that are left at most
unfoldable pub put_chunks : ℕ → Dict String DataLocation → StorageServer → StorageServer
unfolding emit
put_chunks zero entries s = s
put_chunks (suc n) [] s = s
put_chunks (suc n) (e ∷ entries) s =
    put_chunks n (drop 512 (e ∷ entries)) (emit (put_entries (take 512 (e ∷ entries))) s)

unfoldable pub republish : StorageServer → StorageServer
unfolding republished put_chunks
republish s = let entries = republished s in put_chunks (length entries) entries s
