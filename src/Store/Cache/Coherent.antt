-- ===== src/Store/Cache/Coherent.antt =====
-- The caches of python/peercache/store.py answer as the directory does.
use mathlib.Core.Path.{ap₂}
use peer_cache.Base.{
  ℕ, ◌+◌, ◌≤◌, ◌≡◌, refl, sym, ap, subst, ◌∙◌, of_some, arith, String, Option, none, some, Bool,
  true, false, List, [], ◌∷◌, map, length, ltb, ◌==◌, eq_ℕ, eq_string, if◌then◌else◌, All,
  Bool-cases, inl, inr,
}
use peer_cache.Base.Dict
use peer_cache.Base.Dict.{Dict}
use peer_cache.Base.Entries.{All-get, All-remove, All-put}
use peer_cache.Types.{DataLocation}
use peer_cache.Store.Cache.{
  Entry, Cache, fresh_entry, scan_cache, miss_keys, fill, keep_location, keep_locations, sweep,
  prime, pop_keys, dir_cache_invalidate, pop_primed, ask_misses, dir_get, resolve_misses,
  take_primed,
}

fresh_entry-some :
    (now : ℕ) (o : Option Entry) (loc : DataLocation)
    → fresh_entry now o ≡ some loc
    → (expiry : ℕ) × (o ≡ some (loc, expiry)) × (ltb now expiry ≡ true)
unfolding fresh_entry
fresh_entry-some now none loc e = absurd (cc)
fresh_entry-some now (some (l, expiry)) loc e = elim (Bool-cases (ltb now expiry)) [
  | inl live ↦ (expiry, ap (λ x. some (x, expiry)) (of_some (rw live at e)), live)
  | inr dead ↦ absurd (not_found (rw dead at e))
]
  where
    not_found : none ≡ some loc → ⊥
    not_found h = cc

module _ (truth : String → Option DataLocation) where
  -- An entry that has not expired is what the directory has for its key.
  unfoldable pub IsCurrent : ℕ → String × Entry → Type 0
  IsCurrent now e = ltb now e.1.1 ≡ true → truth e.0 ≡ some e.1.0

  pub record IsCoherent (now : ℕ) (c : Cache) : Type 0 where
    pub dir_current : All (IsCurrent now) c.dir_cache
    pub primed_current : All (IsCurrent now) c.primed

  -- A gap, or what the directory has.
  Answers : Option DataLocation → String → Type 0
  Answers o k = (loc : DataLocation) → o ≡ some loc → truth k ≡ some loc

  AllAnswer : List (Option DataLocation) → List String → Type 0
  unfolding Answers
  AllAnswer [] [] = Unit
  AllAnswer (o ∷ out) (k ∷ keys) = Answers o k × AllAnswer out keys
  AllAnswer _ _ = ⊥

  fresh_entry-Answers :
      (now : ℕ) (k : String) (d : Dict String Entry)
      → All (IsCurrent now) d
      → Answers (fresh_entry now (Dict.get k d)) k
  unfolding Answers fresh_entry IsCurrent
  fresh_entry-Answers now k d h loc e =
      let (expiry, found, live) = fresh_entry-some now (Dict.get k d) loc e in
      All-get (IsCurrent now) k (loc, expiry) d h found live

  fill-AllAnswer :
      (keys : List String) (out : List (Option DataLocation))
      → AllAnswer out keys
      → fill out (map truth (miss_keys keys out)) ≡ map truth keys
  unfolding AllAnswer Answers fill miss_keys
  fill-AllAnswer [] [] h = refl
  fill-AllAnswer (k ∷ keys) [] h = absurd h
  fill-AllAnswer [] (o ∷ out) h = absurd h
  fill-AllAnswer (k ∷ keys) (none ∷ out) h =
      ap (λ rest. truth k ∷ rest) (fill-AllAnswer keys out h.1)
  fill-AllAnswer (k ∷ keys) (some loc ∷ out) h =
      ap₂ (λ x rest. x ∷ rest) (sym (h.0 loc refl)) (fill-AllAnswer keys out h.1)

  scan_cache-AllAnswer :
      (now : ℕ) (keys : List String) (d : Dict String Entry)
      → All (IsCurrent now) d
      → AllAnswer (scan_cache now keys d) keys
  unfolding scan_cache AllAnswer
  scan_cache-AllAnswer now [] d h = tt
  scan_cache-AllAnswer now (k ∷ keys) d h =
      (fresh_entry-Answers now k d h, scan_cache-AllAnswer now keys d h)

  pop_primed-AllAnswer :
      (now : ℕ) (keys : List String) (d : Dict String Entry)
      → All (IsCurrent now) d
      → AllAnswer (pop_primed now keys d).0 keys × All (IsCurrent now) (pop_primed now keys d).1
  unfolding pop_primed AllAnswer
  pop_primed-AllAnswer now [] d h = (tt, h)
  pop_primed-AllAnswer now (k ∷ keys) d h =
      let rest =
        pop_primed-AllAnswer now keys (Dict.remove k d) (All-remove (IsCurrent now) k d h) in
      ((fresh_entry-Answers now k d h, rest.0), rest.1)

  keep_location-IsCurrent :
      (now expiry : ℕ) (k : String) (o : Option DataLocation) (d : Dict String Entry)
      → truth k ≡ o
      → All (IsCurrent now) d
      → All (IsCurrent now) (keep_location expiry k o d)
  unfolding keep_location IsCurrent
  keep_location-IsCurrent now expiry k none d e h = h
  keep_location-IsCurrent now expiry k (some loc) d e h =
      either loc.resident (Dict.put k (loc, expiry) d) d
        (All-put (IsCurrent now) k (loc, expiry) d (λ live. e) h) h
    where
      either :
          (b : Bool) (x y : Dict String Entry)
          → All (IsCurrent now) x
          → All (IsCurrent now) y
          → All (IsCurrent now) (if b then x else y)
      either true x y hx hy = hx
      either false x y hx hy = hy

  keep_locations-IsCurrent :
      (now expiry : ℕ) (keys : List String) (d : Dict String Entry)
      → All (IsCurrent now) d
      → All (IsCurrent now) (keep_locations expiry keys (map truth keys) d)
  unfolding keep_locations
  keep_locations-IsCurrent now expiry [] d h = h
  keep_locations-IsCurrent now expiry (k ∷ keys) d h =
      keep_locations-IsCurrent now expiry keys (keep_location expiry k (truth k) d)
        (keep_location-IsCurrent now expiry k (truth k) d refl h)

  sweep-IsCurrent :
      (now : ℕ) (d : Dict String Entry) → All (IsCurrent now) d → All (IsCurrent now) (sweep now d)
  unfolding sweep
  sweep-IsCurrent now [] h = tt
  sweep-IsCurrent now ((k, e) ∷ d) h = elim (Bool-cases (ltb now e.1)) [
    | inl live ↦ rw live (h.0, sweep-IsCurrent now d h.1)
    | inr dead ↦ rw dead (sweep-IsCurrent now d h.1)
  ]

  pop_keys-IsCurrent :
      (now : ℕ) (keys : List String) (d : Dict String Entry)
      → All (IsCurrent now) d
      → All (IsCurrent now) (pop_keys keys d)
  unfolding pop_keys
  pop_keys-IsCurrent now [] d h = h
  pop_keys-IsCurrent now (k ∷ keys) d h =
      pop_keys-IsCurrent now keys (Dict.remove k d) (All-remove (IsCurrent now) k d h)

  -- What has not expired at a later time had not before.
  pub later-IsCurrent :
      (now later : ℕ) (d : Dict String Entry)
      → now ≤ later
      → All (IsCurrent now) d
      → All (IsCurrent later) d
  unfolding IsCurrent
  later-IsCurrent now later [] le h = tt
  later-IsCurrent now later (e ∷ d) le h =
      (λ live. h.0 (ground arith), later-IsCurrent now later d le h.1)

  module _ (ask : List String → List (Option DataLocation))
      (answers : (keys : List String) → ask keys ≡ map truth keys) where
    ask_misses-truth : (keys : List String) → ask_misses ask keys ≡ map truth keys
    unfolding ask_misses
    ask_misses-truth [] = refl
    ask_misses-truth (k ∷ keys) = answers (k ∷ keys)

    pub dir_get-truth :
        (now : ℕ) (keys : List String) (c : Cache)
        → IsCoherent now c
        → ((dir_get ask now keys c).0 ≡ map truth keys) × IsCoherent now (dir_get ask now keys c).1
    unfolding dir_get
    dir_get-truth now keys c h = elim (Bool-cases (c.dir_ttl == 0)) [
      | inl off ↦ rw off (answers keys, h)
      | inr on ↦
          let out = scan_cache now keys c.dir_cache in
          let missing = miss_keys keys out in
          let found = ask_misses-truth missing in
          rw on (
            ap (fill out) found
                ∙ fill-AllAnswer keys out (scan_cache-AllAnswer now keys c.dir_cache h.dir_current),
            record {
              dir_current =
                  subst
                    (λ locs.
                      All (IsCurrent now)
                        (keep_locations (now + c.dir_ttl) missing locs c.dir_cache))
                    (sym found)
                    (keep_locations-IsCurrent now (now + c.dir_ttl) missing c.dir_cache
                      h.dir_current);
              primed_current = h.primed_current;
            },
          )
    ]

    resolve_misses-truth :
        (now : ℕ) (keys : List String) (c : Cache)
        → IsCoherent now c
        → ((resolve_misses ask now keys c).0 ≡ map truth keys)
          × IsCoherent now (resolve_misses ask now keys c).1
    unfolding resolve_misses
    resolve_misses-truth now [] c h = (refl, h)
    resolve_misses-truth now (k ∷ keys) c h = dir_get-truth now (k ∷ keys) c h

    pub take_primed-truth :
        (now : ℕ) (keys : List String) (c : Cache)
        → IsCoherent now c
        → ((take_primed ask now keys c).0 ≡ map truth keys)
          × IsCoherent now (take_primed ask now keys c).1
    unfolding take_primed
    take_primed-truth now keys c h =
        let popped = pop_primed now keys c.primed in
        let (answer, current) = pop_primed-AllAnswer now keys c.primed h.primed_current in
        let missing = miss_keys keys popped.0 in
        let c' = record c { primed = popped.1 } in
        let rest =
          resolve_misses-truth now missing c'
            (record { dir_current = h.dir_current; primed_current = current }) in
        (ap (fill popped.0) rest.0 ∙ fill-AllAnswer keys popped.0 answer, rest.1)

  pub prime-IsCoherent :
      (now : ℕ) (keys : List String) (c : Cache)
      → IsCoherent now c
      → IsCoherent now (prime now keys (map truth keys) c)
  unfolding prime
  prime-IsCoherent now keys c h = record {
    dir_current = h.dir_current;
    primed_current =
        keep_locations-IsCurrent now (now + c.primed_ttl) keys
          (if ltb c.primed_cap (length c.primed) then sweep now c.primed else c.primed)
          (kept (ltb c.primed_cap (length c.primed)));
  }
    where
      kept : (full : Bool) → All (IsCurrent now) (if full then sweep now c.primed else c.primed)
      kept true = sweep-IsCurrent now c.primed h.primed_current
      kept false = h.primed_current

  pub dir_cache_invalidate-IsCoherent :
      (now : ℕ) (keys : List String) (c : Cache)
      → IsCoherent now c
      → IsCoherent now (dir_cache_invalidate keys c)
  unfolding dir_cache_invalidate
  dir_cache_invalidate-IsCoherent now keys c h = elim (Bool-cases (c.dir_ttl == 0)) [
    | inl off ↦ rw off h
    | inr on ↦ rw on (record {
      dir_current = pop_keys-IsCurrent now keys c.dir_cache h.dir_current;
      primed_current = h.primed_current;
    })
  ]
