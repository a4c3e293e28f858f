-- ===== src/Storage/Republish.antt =====
-- What the directory tells after a change of the membership.
pub mod Entries
use peer_cache.Base.{
  ℕ, zero, suc, ◌+◌, ◌-◌, ◌≤◌, ◌≡◌, refl, sym, ap, subst, ◌∙◌, inl, inr, arith, String, Option,
  none, some, Bool, true, false, List, [], ◌∷◌, ◌++◌, map, length, take, drop, ◌==◌, eq_string,
  ==_iff, Bool-cases, Option-cases, if◌then◌else◌,
}
use peer_cache.Base.Dict
use peer_cache.Base.Dict.{Dict, Unique, get-put, Unique-put}
use peer_cache.Types.{DataLocation}
use peer_cache.DiskStore.{DiskStore}
use peer_cache.Pool
use peer_cache.Pool.Tiling.{IsValid}
use peer_cache.Storage.{StorageServer, put_entries, emit, resident_location, disk_location}
use peer_cache.Storage.Ingest.{
  snapshot_entries, disk_only, disk_entries, republished, put_chunks, republish,
}
use peer_cache.Storage.Honest.Replay.{recorded, recorded-emit, apply_effect, put_all}
use peer_cache.Storage.Republish.Entries.{
  update, mapped, recorded-put_chunks, get-put_all, get-put_mapped, Unique-put_all, get-disk_only,
  disk_only-Unique,
}

module _ (s : StorageServer) where
  -- The location of a page of the pool.
  abbrev pub pool_location : ℕ × ℕ → DataLocation
  pool_location page = resident_location s (s.pool.base + page.0) page.1

  snapshot_entries-eq :
      (pages : Dict String (ℕ × ℕ)) (d : Dict String DataLocation)
      → snapshot_entries s (map (λ e. (e.0, s.pool.base + e.1.0, e.1.1)) pages) d
        ≡ put_all (map (λ e. (e.0, pool_location e.1)) pages) d
  unfolding snapshot_entries put_all
  snapshot_entries-eq [] d = refl
  snapshot_entries-eq ((j, page) ∷ pages) d =
      snapshot_entries-eq pages (Dict.put j (pool_location page) d)

  disk_entries-eq :
      (lengths : Dict String ℕ) (d : Dict String DataLocation)
      → disk_entries s lengths d ≡ put_all (map (λ e. (e.0, disk_location s e.1)) lengths) d
  unfolding disk_entries put_all
  disk_entries-eq [] d = refl
  disk_entries-eq ((j, len) ∷ lengths) d =
      disk_entries-eq lengths (Dict.put j (disk_location s len) d)

  -- What a republication leaves under a key: a page of the pool at its place; else, with a disk, a
  -- page whose length is known as one on the disk; else what stood there.
  abbrev pub renewed :
      Option (ℕ × ℕ) → Option DiskStore → Option ℕ → Option DataLocation → Option DataLocation
  renewed (some page) disk len before = some (pool_location page)
  renewed none (some disk) (some len) before = some (disk_location s len)
  renewed none (some disk) none before = before
  renewed none none len before = before

  renewed-update :
      (page : Option (ℕ × ℕ)) (disk : Option DiskStore) (len : Option ℕ)
      (before : Option DataLocation)
      → update (renewed page disk len none) before ≡ renewed page disk len before
  renewed-update (some page) disk len before = refl
  renewed-update none (some disk) (some len) before = refl
  renewed-update none (some disk) none before = refl
  renewed-update none none len before = refl

  abbrev from_snapshot : Dict String DataLocation
  from_snapshot = snapshot_entries s (Pool.snapshot s.pool) []

  from_snapshot-eq : from_snapshot ≡ put_all (map (λ e. (e.0, pool_location e.1)) s.pool.entries) []
  unfolding Pool.snapshot
  from_snapshot-eq = snapshot_entries-eq s.pool.entries []

  from_snapshot-Unique : Unique from_snapshot
  from_snapshot-Unique =
      subst Unique (sym from_snapshot-eq)
        (Unique-put_all (map (λ e. (e.0, pool_location e.1)) s.pool.entries) [] tt)

  get-from_snapshot :
      (k : String)
      → Unique s.pool.entries
      → Dict.get k from_snapshot ≡ update (mapped pool_location (Dict.get k s.pool.entries)) none
  unfolding Dict.get
  get-from_snapshot k u =
      ap (Dict.get k) from_snapshot-eq ∙ get-put_mapped pool_location k s.pool.entries [] u

  abbrev entries_for : Option DiskStore → Dict String DataLocation
  entries_for disk = elim disk [
    | none ↦ from_snapshot
    | some d ↦ disk_entries s (disk_only from_snapshot s.key_len) from_snapshot
  ]

  entries_for-Unique : (disk : Option DiskStore) → Unique (entries_for disk)
  entries_for-Unique none = from_snapshot-Unique
  entries_for-Unique (some d) =
      let kept = disk_only from_snapshot s.key_len in
      subst Unique (sym (disk_entries-eq kept from_snapshot)) (
        Unique-put_all (map (λ e. (e.0, disk_location s e.1)) kept) from_snapshot
          from_snapshot-Unique)

  get-disk_entries :
      (k : String)
      → Unique s.key_len
      → Dict.get k (disk_entries s (disk_only from_snapshot s.key_len) from_snapshot)
        ≡ update
            (mapped
              (disk_location s)
              (if Dict.has k from_snapshot then none else Dict.get k s.key_len))
            (Dict.get k from_snapshot)
  get-disk_entries k u =
      let kept = disk_only from_snapshot s.key_len in
      ap (Dict.get k) (disk_entries-eq kept from_snapshot)
      ∙ get-put_mapped (disk_location s) k kept from_snapshot
          (disk_only-Unique from_snapshot s.key_len u)
      ∙ ap (λ o. update (mapped (disk_location s) o) (Dict.get k from_snapshot))
          (get-disk_only k from_snapshot s.key_len)

  get-entries_for :
      (disk : Option DiskStore) (k : String)
      → Unique s.pool.entries
      → Unique s.key_len
      → Dict.get k (entries_for disk)
        ≡ renewed (Dict.get k s.pool.entries) disk (Dict.get k s.key_len) none
  unfolding Dict.has
  get-entries_for none k u ul = elim (Option-cases (Dict.get k s.pool.entries)) [
    | inl missing ↦ rw missing (get-from_snapshot k u ∙ rw missing refl)
    | inr (page, found) ↦ rw found (get-from_snapshot k u ∙ rw found refl)
  ]
  get-entries_for (some d) k u ul = elim (Option-cases (Dict.get k s.pool.entries)) [
    | inr (page, found) ↦
        let e : Dict.get k from_snapshot ≡ some (pool_location page) =
          get-from_snapshot k u ∙ rw found refl in
        let h : Dict.has k from_snapshot ≡ true = rw (Dict.has, e) refl in
        rw (found, get-disk_entries k ul, h, e) refl
    | inl missing ↦
        let e : Dict.get k from_snapshot ≡ none = get-from_snapshot k u ∙ rw missing refl in
        let h : Dict.has k from_snapshot ≡ false = rw (Dict.has, e) refl in
        rw (missing, get-disk_entries k ul, h, e)
          (elim (Option-cases (Dict.get k s.key_len)) [
            | inl unknown ↦ rw unknown refl
            | inr (len, known) ↦ rw known refl
          ])
  ]

-- After a republication the directory has, for every key of a valid pool, the place of its page;
-- for a key of which the pool has no page, and whose length is known, that it is on the disk, where
-- there is a disk; and under every other key what stood there. The number of entries, and so of the
-- batches of 512, is arbitrary.
pub get-republish :
    (s : StorageServer) (k : String)
    → IsValid s.pool
    → Unique s.key_len
    → Dict.get k (recorded (republish s))
      ≡ renewed s
          (Dict.get k s.pool.entries)
          s.disk
          (Dict.get k s.key_len)
          (Dict.get k (recorded s))
unfolding republish republished
get-republish s k v u =
    let entries = republished s in
    ap (Dict.get k) (recorded-put_chunks (length entries) entries s (omega arith))
    ∙ get-put_all k entries (recorded s) (entries_for-Unique s s.disk)
    ∙ ap (λ o. update o (Dict.get k (recorded s))) (get-entries_for s s.disk k v.unique u)
    ∙ renewed-update s (Dict.get k s.pool.entries) s.disk (Dict.get k s.key_len)
        (Dict.get k (recorded s))
