-- ===== src/Store/Cache.antt =====
-- python/peercache/store.py: the cache of read locations and the handoff from `batch_exists` to
-- `batch_get`. Times are whole units of the monotonic clock, which is the argument `now`; the
-- answer of `directory.get` is the parameter `ask`.
pub mod Coherent
use peer_cache.Base.{
  ℕ, zero, suc, ◌+◌, String, Option, none, some, Bool, true, false, List, [], ◌∷◌, length, ltb,
  ◌==◌, eq_ℕ, eq_string, if◌then◌else◌,
}
use peer_cache.Base.Dict
use peer_cache.Base.Dict.{Dict}
use peer_cache.Types.{DataLocation}

-- A location and the time at which it expires.
abbrev pub Entry : Type 0
Entry = DataLocation × ℕ

pub record Cache : Type 0 where
  pub dir_ttl : ℕ
  pub dir_cache : Dict String Entry
  pub primed_ttl : ℕ
  pub primed_cap : ℕ
  pub primed : Dict String Entry

unfoldable pub init_cache : ℕ → ℕ → ℕ → Cache
init_cache dir_ttl primed_ttl primed_cap = record {
  dir_ttl = dir_ttl;
  dir_cache = [];
  primed_ttl = primed_ttl;
  primed_cap = primed_cap;
  primed = [];
}

-- `ent is not None and ent[1] > now`
unfoldable pub fresh_entry : ℕ → Option Entry → Option DataLocation
fresh_entry now none = none
fresh_entry now (some (loc, expiry)) = if ltb now expiry then some loc else none

-- The first loop of `_dir_get`: `out`, and `miss_keys` for its gaps.
unfoldable pub scan_cache : ℕ → List String → Dict String Entry → List (Option DataLocation)
unfolding fresh_entry
scan_cache now [] d = []
scan_cache now (k ∷ keys) d = fresh_entry now (Dict.get k d) ∷ scan_cache now keys d

unfoldable pub miss_keys : List String → List (Option DataLocation) → List String
miss_keys (k ∷ keys) (none ∷ out) = k ∷ miss_keys keys out
miss_keys (k ∷ keys) (some loc ∷ out) = miss_keys keys out
miss_keys _ _ = []

-- `out[miss_idx[j]] = loc`, for each `j, loc` of what the directory returned
unfoldable pub fill :
    List (Option DataLocation) → List (Option DataLocation) → List (Option DataLocation)
fill [] found = []
fill (some loc ∷ out) found = some loc ∷ fill out found
fill (none ∷ out) [] = none ∷ fill out []
fill (none ∷ out) (l ∷ found) = l ∷ fill out found

-- `if loc is not None and loc.resident: d[k] = (loc, exp)`
unfoldable pub keep_location :
    ℕ → String → Option DataLocation → Dict String Entry → Dict String Entry
keep_location expiry k none d = d
keep_location expiry k (some loc) d = if loc.resident then Dict.put k (loc, expiry) d else d

unfoldable pub keep_locations :
    ℕ → List String → List (Option DataLocation) → Dict String Entry → Dict String Entry
unfolding keep_location
keep_locations expiry (k ∷ keys) (loc ∷ locs) d =
    keep_locations expiry keys locs (keep_location expiry k loc d)
keep_locations expiry _ _ d = d

-- `{k: v for k, v in self._primed.items() if v[1] > now}`
unfoldable pub sweep : ℕ → Dict String Entry → Dict String Entry
sweep now [] = []
sweep now ((k, e) ∷ d) = let rest = sweep now d in if ltb now e.1 then (k, e) ∷ rest else rest

unfoldable pub prime : ℕ → List String → List (Option DataLocation) → Cache → Cache
unfolding sweep keep_locations
prime now keys locs c =
    let kept = if ltb c.primed_cap (length c.primed) then sweep now c.primed else c.primed in
    record c { primed = keep_locations (now + c.primed_ttl) keys locs kept }

unfoldable pub pop_keys : List String → Dict String Entry → Dict String Entry
pop_keys [] d = d
pop_keys (k ∷ keys) d = pop_keys keys (Dict.remove k d)

unfoldable pub dir_cache_invalidate : List String → Cache → Cache
unfolding pop_keys
dir_cache_invalidate keys c =
    if c.dir_ttl == 0 then c else record c { dir_cache = pop_keys keys c.dir_cache }

-- The loop of `_take_primed`: each entry is popped, whether it has expired or not.
unfoldable pub pop_primed :
    ℕ → List String → Dict String Entry → List (Option DataLocation) × Dict String Entry
unfolding fresh_entry
pop_primed now [] d = ([], d)
pop_primed now (k ∷ keys) d =
    let (out, d') = pop_primed now keys (Dict.remove k d) in
    (fresh_entry now (Dict.get k d) ∷ out, d')

module _ (ask : List String → List (Option DataLocation)) where
  -- `if miss_keys`, with the answers for them.
  unfoldable pub ask_misses : List String → List (Option DataLocation)
  ask_misses [] = []
  ask_misses (k ∷ keys) = ask (k ∷ keys)

  unfoldable pub dir_get : ℕ → List String → Cache → List (Option DataLocation) × Cache
  unfolding scan_cache miss_keys fill keep_locations ask_misses
  dir_get now keys c =
      if c.dir_ttl == 0
      then (ask keys, c)
      else (let out = scan_cache now keys c.dir_cache in
          let missing = miss_keys keys out in
          let found = ask_misses missing in
          (
            fill out found,
            record c { dir_cache = keep_locations (now + c.dir_ttl) missing found c.dir_cache },
          ))

  -- `if miss_keys`, with the answers for them.
  unfoldable pub resolve_misses : ℕ → List String → Cache → List (Option DataLocation) × Cache
  unfolding dir_get
  resolve_misses now [] c = ([], c)
  resolve_misses now (k ∷ keys) c = dir_get now (k ∷ keys) c

  unfoldable pub take_primed : ℕ → List String → Cache → List (Option DataLocation) × Cache
  unfolding pop_primed miss_keys resolve_misses fill
  take_primed now keys c =
      let (out, primed) = pop_primed now keys c.primed in
      let (found, c') = resolve_misses now (miss_keys keys out) (record c { primed = primed }) in
      (fill out found, c')
