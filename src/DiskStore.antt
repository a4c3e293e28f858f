-- ===== src/DiskStore.antt =====
-- python/peercache/diskstore.py: `DiskStore`, the disk tier of the pool.
-- `sha1` is the hex digest of a key and `utf8` its encoding. The file system is a dict from file
-- names to bytes; an `Io` says which calls of one operation the operating system serves. `none`
-- as the result of `store_file` is an exception, which the worker thread catches.
pub mod Steps
pub mod Capacity
pub mod Inflight
pub mod RoundTrip
pub mod Restart
use peer_cache.Base.{
  ℕ, zero, suc, ◌+◌, ◌-◌, String, Option, none, some, Bool, true, false, not, List, [], ◌∷◌, ◌++◌,
  length, take, drop, ltb, leb, ◌==◌, eq_string, eq_ℕ, ◌&&◌, ◌||◌, elem, if◌then◌else◌, ◌>>=◌,
}
use peer_cache.Base.Bytes.{pack_be, unpack_be, values}
use peer_cache.Base.Dict
use peer_cache.Base.Dict.{Dict}
use peer_cache.Base.Text.{join}

-- `index.json`
pub data IndexFile : Type 0 where
  absent corrupt : IndexFile
  listing : Dict String (String × ℕ) → IndexFile

pub record DiskStore : Type 0 where
  pub max_bytes : ℕ
  -- key -> (file name, length), least recently used first
  pub index : Dict String (String × ℕ)
  pub used : ℕ
  pub inflight : List String
  pub writes_since_flush : ℕ
  pub queue : List (String × List ℕ)
  pub running : Bool
  pub files : Dict String (List ℕ)
  pub index_file : IndexFile

pub record Io : Type 0 where
  pub writes : Bool
  pub removes : Bool
  pub flushes : Bool

-- `put` up to the queue
unfoldable pub put : String → List ℕ → DiskStore → DiskStore
put key page d =
    if not d.running || ltb d.max_bytes (length page)
    then d
    else if Dict.has key d.index || elem key d.inflight
    then d
    else record d { inflight = key ∷ d.inflight; queue = d.queue ++ (key, page) ∷ [] }

-- `os.remove`, whose failure is ignored
unfoldable pub unlink : Io → String → Dict String (List ℕ) → Dict String (List ℕ)
unlink io name files = if io.removes then Dict.remove name files else files

-- `_flush_index`, whose failure is ignored
unfoldable pub flush_index : Io → DiskStore → DiskStore
flush_index io d = if io.flushes then record d { index_file = listing d.index } else d

unfoldable pub drop_oldest : Io → String × ℕ → Dict String (String × ℕ) → DiskStore → DiskStore
unfolding unlink
drop_oldest io entry rest d = record d {
  index = rest;
  used = d.used - entry.1;
  files = unlink io entry.0 d.files;
}

pub record Written : Type 0 where
  pub disk : DiskStore
  pub evicted : List String

-- The `while` of `_write`, over the index that is left.
unfoldable pub enforce : Io → Dict String (String × ℕ) → DiskStore → List String → Written
enforce io [] d evicted = record { disk = d; evicted = evicted }
enforce io (last ∷ []) d evicted = record { disk = d; evicted = evicted }
enforce io ((old_key, entry) ∷ next ∷ rest) d evicted =
    let more =
      enforce io (next ∷ rest) (drop_oldest io entry (next ∷ rest) d) (evicted ++ old_key ∷ []) in
    if ltb d.max_bytes d.used then more else record { disk = d; evicted = evicted }

-- The part of `_write` under the lock, before the loop.
unfoldable pub enter : String → String → ℕ → DiskStore → DiskStore
enter key name len d = record d {
  used = (if Dict.has key d.index then d.used else d.used + len);
  index = Dict.move_to_end key (Dict.put key (name, len) d.index);
  writes_since_flush = d.writes_since_flush + 1;
}

-- The flush after each 256 writes.
unfoldable pub flush_due : Io → Written → Written
unfolding flush_index
flush_due io w =
    if leb 256 w.disk.writes_since_flush
    then record w { disk = flush_index io (record w.disk { writes_since_flush = 0 }) }
    else w

unfoldable pub entry_file : DiskStore → Option (String × ℕ) → Option (List ℕ × ℕ)
entry_file d none = none
entry_file d (some entry) = elim (Dict.get entry.0 d.files) [
  | none ↦ none
  | some content ↦ some (content, entry.1)
]

-- Past the header `[4-byte big-endian keylen][key]`: `struct.error` for a file of under 4 bytes.
unfoldable pub page_of : List ℕ × ℕ → Option (List ℕ)
page_of (content, len) =
    if ltb (length content) 4
    then none
    else some (take len (drop (4 + unpack_be 0 (take 4 content)) content))

unfoldable pub get : String → DiskStore → Option (List ℕ) × DiskStore
get key d = (
  entry_file d (Dict.get key d.index) >>= page_of,
  record d { index = Dict.move_to_end key d.index },
)

unfoldable pub exists : String → DiskStore → Bool
exists key d = Dict.has key d.index

unfoldable pub forget : Io → String → Option (String × ℕ) → DiskStore → DiskStore
forget io key none d = d
forget io key (some entry) d = record d {
  index = Dict.remove key d.index;
  used = d.used - entry.1;
  files = unlink io entry.0 d.files;
}

unfoldable pub remove : Io → String → DiskStore → DiskStore
unfolding forget unlink
remove io key d = forget io key (Dict.get key d.index) d

unfoldable pub stats : DiskStore → ℕ × ℕ
stats d = (d.used, length d.index)

-- `close` after the worker has ended
unfoldable pub close : Io → DiskStore → DiskStore
close io d = flush_index io (record d { running = false })

-- An entry of index.json is taken where its file exists.
unfoldable pub load_entry : String → String × ℕ → Bool → DiskStore → DiskStore
load_entry key entry false d = d
load_entry key entry true d = record d {
  index = Dict.put key entry d.index;
  used = d.used + entry.1;
}

-- The loop of `_load_index` over the entries of index.json.
unfoldable pub load_entries : Dict String (String × ℕ) → DiskStore → DiskStore
unfolding load_entry
load_entries [] d = d
load_entries ((key, entry) ∷ rest) d =
    load_entries rest (load_entry key entry (Dict.has entry.0 d.files) d)

module _ (sha1 : String → String) (utf8 : String → List ℕ) where
  unfoldable pub safe_name : String → String
  safe_name key = join (sha1 key) ".bin"

  -- The file that `_write` puts in place.
  unfoldable pub file_bytes : String → List ℕ → List ℕ
  file_bytes key page = pack_be 4 (length (utf8 key)) ++ (utf8 key ++ page)

  unfoldable pub store_file : Io → String → List ℕ → DiskStore → Option DiskStore
  unfolding safe_name file_bytes
  store_file io key page d =
      if io.writes && ltb (length (utf8 key)) (values 4)
      then some (record d { files = Dict.put (safe_name key) (file_bytes key page) d.files })
      else none

  -- The part of `_write` after the file is in place.
  unfoldable pub write_index : Io → String → List ℕ → DiskStore → Written
  unfolding enter flush_due enforce safe_name
  write_index io key page d =
      let entered = enter key (safe_name key) (length page) d in
      flush_due io (enforce io entered.index entered [])

  unfoldable pub write : Io → String → List ℕ → DiskStore → Option Written
  unfolding write_index
  write io key page d = do stored ← store_file io key page d; some (write_index io key page stored)

module _ (decode : List ℕ → Option String) where
  -- One file of `_rebuild_from_scan`; an exception skips it.
  unfoldable pub scan_file : String → List ℕ → DiskStore → DiskStore
  scan_file name content d =
      let klen = unpack_be 0 (take 4 content) in
      if ltb (length content) 4 then d else elim (decode (take klen (drop 4 content))) [
        | none ↦ d
        | some key ↦ if ltb (length content) (4 + klen) then d else record d {
          index = Dict.put key (name, length content - 4 - klen) d.index;
          used = d.used + (length content - 4 - klen);
        }
      ]

  -- The names are the sorted names of the directory that end in ".bin".
  unfoldable pub rebuild_from_scan : List String → DiskStore → DiskStore
  rebuild_from_scan [] d = d
  rebuild_from_scan (name ∷ names) d =
      rebuild_from_scan names
        (elim (Dict.get name d.files) [ none ↦ d | some content ↦ scan_file name content d ])

  unfoldable pub load_index : List String → IndexFile → DiskStore → DiskStore
  load_index names absent d = rebuild_from_scan names d
  load_index names corrupt d = rebuild_from_scan names d
  load_index names (listing entries) d = load_entries entries d

  unfoldable pub init : ℕ → List String → Dict String (List ℕ) → IndexFile → DiskStore
  init max_bytes names files index_file = load_index names index_file (record {
    max_bytes = max_bytes;
    index = [];
    used = 0;
    inflight = [];
    writes_since_flush = 0;
    queue = [];
    running = true;
    files = files;
    index_file = index_file;
  })
