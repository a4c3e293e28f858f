-- ===== src/Store/Exists.antt =====
-- python/peercache/store.py: `batch_exists` and the choice of the keyspace, and the locations of
-- a read after it. The metrics and the background prefetch of the hits are left out.
pub mod Refinement
pub mod Handoff
use peer_cache.Base.{
  ℕ, ◌+◌, ◌*◌, String, Option, Bool, true, false, not, List, [], ◌∷◌, length, take, ◌==◌, eq_ℕ,
  if◌then◌else◌,
}
use peer_cache.Types.{DataLocation}
use peer_cache.Store.Keys.{KeyLayout, lookup_keys, hit_prefix, count_blocks, tag_keys}
use peer_cache.Store.Cache.{Cache, prime, dir_get, take_primed, dir_cache_invalidate}

pub record Lookup : Type 0 where
  pub cache : Cache
  pub raw_keys : Bool
  pub keyspace_detected : Bool

-- `batch_set` and `batch_get` of the generic interface store one blob for each raw key.
unfoldable pub use_raw_keys : Lookup → Lookup
use_raw_keys s = record s { raw_keys = true; keyspace_detected = true }

-- What stands in `comp_keys, mult, locs, n` once the keyspace is chosen.
pub record Probe : Type 0 where
  pub comp_keys : List String
  pub mult : ℕ
  pub locs : List (Option DataLocation)
  pub pages : ℕ

-- `if hit: self._prime(comp_keys[:hit], locs[:hit])`
unfoldable pub prime_hits : ℕ → Probe → Lookup → Lookup
prime_hits now p s =
    let hit = p.pages * p.mult in
    if hit == 0
    then s
    else record s { cache = prime now (take hit p.comp_keys) (take hit p.locs) s.cache }

-- `_exists_slotmap` in the place of the directory; `present` is its answer.
unfoldable pub batch_exists_slotmap : ℕ → ℕ → List Bool → Lookup → ℕ × Lookup
batch_exists_slotmap pages mult present s =
    let n = count_blocks pages present mult in
    (n, if n == 0 then s else record s { keyspace_detected = true })

module _ (ask : List String → List (Option DataLocation)) (layout : KeyLayout) where
  unfoldable pub probe : ℕ → List String → Bool → Cache → Probe × Cache
  probe now keys raw_keys cache =
      let (comp_keys, mult) = lookup_keys layout raw_keys keys in
      let (locs, cache') = dir_get ask now comp_keys cache in
      (
        record { comp_keys = comp_keys; mult = mult; locs = locs; pages = hit_prefix locs mult },
        cache',
      )

  -- The other keyspace, on a full miss before any hit.
  unfoldable pub probe_other : ℕ → List String → Probe → Lookup → ℕ × Lookup
  unfolding probe prime_hits
  probe_other now keys first s =
      let (other, cache) = probe now keys (not s.raw_keys) s.cache in
      if other.pages == 0 then (first.pages, record s { cache = cache }) else (
        other.pages,
        prime_hits now other
            (record { cache = cache; raw_keys = not s.raw_keys; keyspace_detected = true }),
      )

  unfoldable pub choose_keyspace : ℕ → List String → Probe → Lookup → ℕ × Lookup
  unfolding probe_other prime_hits
  choose_keyspace now keys first s =
      if not (first.pages == 0)
      then (first.pages, prime_hits now first (record s { keyspace_detected = true }))
      else if s.keyspace_detected
      then (first.pages, s)
      else probe_other now keys first s

  unfoldable pub batch_exists : ℕ → List String → Lookup → ℕ × Lookup
  unfolding probe choose_keyspace
  batch_exists now keys s =
      let (first, cache) = probe now keys s.raw_keys s.cache in
      choose_keyspace now keys first (record s { cache = cache })

  unfoldable pub exists_key : ℕ → String → Lookup → Bool × Lookup
  unfolding batch_exists
  exists_key now key s = let (n, s') = batch_exists now (key ∷ []) s in (not (n == 0), s')

-- One use of the caches: `batch_exists`, the locations of a read of storage keys (`_fetch`), the
-- keys whose read failed, and a call of the generic interface.
pub data Call : Type 0 where
  exists_call : List String → Call
  locate_call : List String → Call
  failed_call : List String → Call
  generic_call : Call

pub data Answer : Type 0 where
  pages : ℕ → Answer
  locations : List (Option DataLocation) → Answer
  done : Answer

unfoldable pub serve :
    (List String → List (Option DataLocation)) → KeyLayout → ℕ → Call → Lookup → Answer × Lookup
unfolding batch_exists
serve ask layout now (exists_call keys) s =
    let (n, s') = batch_exists ask layout now keys s in (pages n, s')
serve ask layout now (locate_call keys) s =
    let (locs, cache) = take_primed ask now keys s.cache in
    (locations locs, record s { cache = cache })
serve ask layout now (failed_call keys) s =
    (done, record s { cache = dir_cache_invalidate keys s.cache })
serve ask layout now generic_call s = (done, use_raw_keys s)

-- The calls, each with the time that has passed since the one before.
unfoldable pub serve_all :
    (List String → List (Option DataLocation))
    → KeyLayout
    → ℕ
    → List (ℕ × Call)
    → Lookup
    → List Answer × Lookup
unfolding serve
serve_all ask layout now [] s = ([], s)
serve_all ask layout now ((wait, call) ∷ calls) s =
    let (a, s') = serve ask layout (now + wait) call s in
    let (as', s'') = serve_all ask layout (now + wait) calls s' in (a ∷ as', s'')
