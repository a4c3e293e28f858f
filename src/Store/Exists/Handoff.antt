-- ===== src/Store/Exists/Handoff.antt =====
-- What `batch_exists` has found is read without another lookup, in python/peercache/store.py.
use mathlib.Core.Path.{ap₂}
use peer_cache.Base.{
  ℕ, ◌+◌, ◌<◌, ◌≡◌, refl, ap, ◌∙◌, arith, String, Option, none, some, true, false, List, [], ◌∷◌,
  map, length, ltb, lt→ltb, ◌==◌, ==_iff, eq_string, if◌then◌else◌, All, elem, Distinct,
}
use peer_cache.Base.Dict
use peer_cache.Base.Dict.{Dict, get-put, get-put_self, get-remove}
use peer_cache.Types.{DataLocation}
use peer_cache.Store.Cache.{
  Entry, Cache, fresh_entry, miss_keys, fill, keep_location, keep_locations, sweep, prime,
  pop_primed, resolve_misses, take_primed,
}

-- Each key has its location, which has not expired.
Holds : ℕ → List String → List DataLocation → Dict String Entry → Type 0
Holds now [] [] d = Unit
Holds now (k ∷ keys) (loc ∷ locs) d =
    (fresh_entry now (Dict.get k d) ≡ some loc) × Holds now keys locs d
Holds now _ _ d = ⊥

Holds-remove :
    (now : ℕ) (k : String) (keys : List String) (locs : List DataLocation) (d : Dict String Entry)
    → elem k keys ≡ false
    → Holds now keys locs d
    → Holds now keys locs (Dict.remove k d)
unfolding Holds
Holds-remove now k [] [] d out h = tt
Holds-remove now k [] (loc ∷ locs) d out h = absurd h
Holds-remove now k (j ∷ keys) [] d out h = absurd h
Holds-remove now k (j ∷ keys) (loc ∷ locs) d out h =
    let other : (k == j) ≡ false = ground (arith, ==_iff j k, ==_iff k j) in
    (
      ap (fresh_entry now) (get-remove k j d ∙ ap (λ b. if b then none else Dict.get j d) other)
          ∙ h.0,
      Holds-remove now k keys locs d (ground arith) h.1,
    )

pop_primed-Holds :
    (now : ℕ) (keys : List String) (locs : List DataLocation) (d : Dict String Entry)
    → Distinct keys
    → Holds now keys locs d
    → (pop_primed now keys d).0 ≡ map some locs
unfolding pop_primed Holds
pop_primed-Holds now [] [] d distinct h = refl
pop_primed-Holds now [] (loc ∷ locs) d distinct h = absurd h
pop_primed-Holds now (k ∷ keys) [] d distinct h = absurd h
pop_primed-Holds now (k ∷ keys) (loc ∷ locs) d distinct h =
    ap₂ (λ x xs. x ∷ xs) h.0
      (pop_primed-Holds now keys locs (Dict.remove k d) distinct.1
        (Holds-remove now k keys locs d distinct.0 h.1))

keep_location-put :
    (expiry : ℕ) (k : String) (loc : DataLocation) (d : Dict String Entry)
    → loc.resident ≡ true
    → keep_location expiry k (some loc) d ≡ Dict.put k (loc, expiry) d
unfolding keep_location
keep_location-put expiry k loc d resident =
    ap (λ b. if b then Dict.put k (loc, expiry) d else d) resident

keep_locations-other :
    (expiry : ℕ) (j : String) (keys : List String) (locs : List DataLocation)
    (d : Dict String Entry)
    → All (λ l. l.resident ≡ true) locs
    → elem j keys ≡ false
    → Dict.get j (keep_locations expiry keys (map some locs) d) ≡ Dict.get j d
unfolding keep_locations
keep_locations-other expiry j [] locs d resident out = refl
keep_locations-other expiry j (k ∷ keys) [] d resident out = refl
keep_locations-other expiry j (k ∷ keys) (loc ∷ locs) d resident out =
    let other : (k == j) ≡ false = ground arith in
    keep_locations-other expiry j keys locs (keep_location expiry k (some loc) d) resident.1
      (ground arith)
    ∙ ap (Dict.get j) (keep_location-put expiry k loc d resident.0)
    ∙ get-put k j (loc, expiry) d
    ∙ ap (λ b. if b then some (loc, expiry) else Dict.get j d) other

keep_locations-Holds :
    (now expiry : ℕ) (keys : List String) (locs : List DataLocation) (d : Dict String Entry)
    → now < expiry
    → length locs ≡ length keys
    → Distinct keys
    → All (λ l. l.resident ≡ true) locs
    → Holds now keys locs (keep_locations expiry keys (map some locs) d)
unfolding keep_locations Holds fresh_entry
keep_locations-Holds now expiry [] [] d live same distinct resident = tt
keep_locations-Holds now expiry [] (loc ∷ locs) d live same distinct resident = absurd (omega arith)
keep_locations-Holds now expiry (k ∷ keys) [] d live same distinct resident = absurd (omega arith)
keep_locations-Holds now expiry (k ∷ keys) (loc ∷ locs) d live same distinct resident = (
  ap (fresh_entry now) (
        keep_locations-other expiry k keys locs (keep_location expiry k (some loc) d) resident.1
          distinct.0
        ∙ ap (Dict.get k) (keep_location-put expiry k loc d resident.0)
        ∙ get-put_self k (loc, expiry) d)
      ∙ ap (λ b. if b then some loc else none) (lt→ltb now expiry live),
  keep_locations-Holds now expiry keys locs (keep_location expiry k (some loc) d) live (omega arith)
      distinct.1 resident.1,
)

-- No gap is left to ask for.
no_misses : (keys : List String) (locs : List DataLocation) → miss_keys keys (map some locs) ≡ []
unfolding miss_keys
no_misses [] locs = refl
no_misses (k ∷ keys) [] = refl
no_misses (k ∷ keys) (loc ∷ locs) = no_misses keys locs

fill-full : (locs : List DataLocation) → fill (map some locs) [] ≡ map some locs
unfolding fill
fill-full [] = refl
fill-full (loc ∷ locs) = ap (λ rest. some loc ∷ rest) (fill-full locs)

-- Where `batch_exists` has primed distinct keys with their resident locations, a read of these keys
-- before the entries expire takes just those locations, whatever the directory would answer.
pub take_primed-prime :
    (ask : List String → List (Option DataLocation)) (now later : ℕ) (keys : List String)
    (locs : List DataLocation) (c : Cache)
    → later < now + c.primed_ttl
    → length locs ≡ length keys
    → Distinct keys
    → All (λ l. l.resident ≡ true) locs
    → (take_primed ask later keys (prime now keys (map some locs) c)).0 ≡ map some locs
unfolding take_primed prime resolve_misses
take_primed-prime ask now later keys locs c live same distinct resident =
    let kept = if ltb c.primed_cap (length c.primed) then sweep now c.primed else c.primed in
    let primed = keep_locations (now + c.primed_ttl) keys (map some locs) kept in
    let out = pop_primed-Holds later keys locs primed distinct (
      keep_locations-Holds later (now + c.primed_ttl) keys locs kept live same distinct resident) in
    let c' : Cache = record c { primed = (pop_primed later keys primed).1 } in
    ap (λ o. fill o (resolve_misses ask later (miss_keys keys o) c').0) out
    ∙ ap (λ ks. fill (map some locs) (resolve_misses ask later ks c').0) (no_misses keys locs)
    ∙ fill-full locs
