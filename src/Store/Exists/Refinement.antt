-- ===== src/Store/Exists/Refinement.antt =====
-- The lookups of python/peercache/store.py with their caches are those without.
use mathlib.Core.Path.{ap₂}
use peer_cache.Base.{
  ℕ, zero, suc, ◌+◌, ◌*◌, ◌≡◌, refl, sym, ap, subst, ◌∙◌, arith, String, Option, Bool, true, false,
  not, List, [], ◌∷◌, map, take, ◌==◌, eq_ℕ, if◌then◌else◌, Bool-cases, inl, inr,
}
use peer_cache.Types.{DataLocation}
use peer_cache.Store.Keys.{KeyLayout, lookup_keys, hit_prefix}
use peer_cache.Store.Cache.{Cache, prime}
use peer_cache.Store.Cache.Coherent.{
  IsCoherent, later-IsCurrent, dir_get-truth, take_primed-truth, prime-IsCoherent,
  dir_cache_invalidate-IsCoherent,
}
use peer_cache.Store.Exists.{
  Lookup, use_raw_keys, Probe, prime_hits, probe, probe_other, choose_keyspace, batch_exists, Call,
  exists_call, locate_call, failed_call, generic_call, Answer, pages, locations, done, serve,
  serve_all,
}

-- The keyspace, which is all the state that is left without the caches.
pub record Keyspace : Type 0 where
  pub raw : Bool
  pub detected : Bool

unfoldable pub keyspace_of : Lookup → Keyspace
keyspace_of s = record { raw = s.raw_keys; detected = s.keyspace_detected }

module _ (truth : String → Option DataLocation) (layout : KeyLayout) where
  -- The pages in front that the directory has.
  unfoldable pub pages_held : List String → Bool → ℕ
  pages_held keys raw =
      let (comp, mult) = lookup_keys layout raw keys in hit_prefix (map truth comp) mult

  -- `batch_exists` over the directory itself.
  unfoldable pub plain_exists : List String → Keyspace → ℕ × Keyspace
  unfolding pages_held
  plain_exists keys p =
      let here = pages_held keys p.raw in
      let other = pages_held keys (not p.raw) in
      if not (here == 0)
      then (here, record p { detected = true })
      else if p.detected
      then (here, p)
      else if other == 0
      then (here, p)
      else (other, record { raw = not p.raw; detected = true })

  unfoldable pub plain_serve : Call → Keyspace → Answer × Keyspace
  unfolding plain_exists
  plain_serve (exists_call keys) p = let (n, p') = plain_exists keys p in (pages n, p')
  plain_serve (locate_call keys) p = (locations (map truth keys), p)
  plain_serve (failed_call keys) p = (done, p)
  plain_serve generic_call p = (done, record { raw = true; detected = true })

  unfoldable pub plain_serve_all : List (ℕ × Call) → Keyspace → List Answer
  unfolding plain_serve
  plain_serve_all [] p = []
  plain_serve_all ((wait, call) ∷ calls) p =
      let (a, p') = plain_serve call p in a ∷ plain_serve_all calls p'

  -- The two give one answer, and the caches stay coherent.
  record Agrees {ℓ} {A : Type ℓ} (now : ℕ) (r : A × Lookup) (q : A × Keyspace) : Type ℓ where
    pub answer : r.0 ≡ q.0
    pub keyspace : keyspace_of r.1 ≡ q.1
    pub coherent : IsCoherent truth now r.1.cache

  record IsTrue (keys : List String) (raw : Bool) (p : Probe) : Type 0 where
    pub found : p.locs ≡ map truth p.comp_keys
    pub counted : p.pages ≡ pages_held keys raw

  map-take : (n : ℕ) (keys : List String) → take n (map truth keys) ≡ map truth (take n keys)
  map-take zero keys = refl
  map-take (suc n) [] = refl
  map-take (suc n) (k ∷ keys) = ap (λ rest. truth k ∷ rest) (map-take n keys)

  prime_hits-IsCoherent :
      (now : ℕ) (p : Probe) (s : Lookup)
      → p.locs ≡ map truth p.comp_keys
      → IsCoherent truth now s.cache
      → IsCoherent truth now (prime_hits now p s).cache
  unfolding prime_hits
  prime_hits-IsCoherent now p s found h =
      let hit = p.pages * p.mult in
      let primed : IsCoherent truth now
          (prime now (take hit p.comp_keys) (take hit p.locs) s.cache) =
        subst (λ locs. IsCoherent truth now (prime now (take hit p.comp_keys) locs s.cache))
          (sym (ap (take hit) found ∙ map-take hit p.comp_keys))
          (prime-IsCoherent truth now (take hit p.comp_keys) s.cache h) in
      elim (Bool-cases (hit == 0)) [
        | inl none_hit ↦ rw none_hit h
        | inr some_hit ↦ rw some_hit primed
      ]

  prime_hits-keyspace :
      (now : ℕ) (p : Probe) (s : Lookup) → keyspace_of (prime_hits now p s) ≡ keyspace_of s
  unfolding prime_hits keyspace_of
  prime_hits-keyspace now p s = elim (Bool-cases (p.pages * p.mult == 0)) [
    | inl none_hit ↦ rw none_hit refl
    | inr some_hit ↦ rw some_hit refl
  ]

  Agrees-if :
      (now : ℕ) (b b' : Bool) (r r' : ℕ × Lookup) (q q' : ℕ × Keyspace)
      → b ≡ b'
      → Agrees now r q
      → Agrees now r' q'
      → Agrees now (if b then r else r') (if b' then q else q')
  Agrees-if now true b' r r' q q' e h h' = rw (← e) h
  Agrees-if now false b' r r' q q' e h h' = rw (← e) h'

  module _ (ask : List String → List (Option DataLocation))
      (answers : (keys : List String) → ask keys ≡ map truth keys) where
    probe-IsTrue :
        (now : ℕ) (keys : List String) (raw : Bool) (c : Cache)
        → IsCoherent truth now c
        → IsTrue keys raw (probe ask layout now keys raw c).0
          × IsCoherent truth now (probe ask layout now keys raw c).1
    unfolding probe pages_held
    probe-IsTrue now keys raw c h =
        let (comp, mult) = lookup_keys layout raw keys in
        let (found, coherent) = dir_get-truth truth ask answers now comp c h in
        (record { found = found; counted = ap (λ locs. hit_prefix locs mult) found }, coherent)

    -- A hit in the keyspace `raw`, which is kept from then on.
    locked_on :
        (now : ℕ) (keys : List String) (raw : Bool) (p : Probe) (c : Cache)
        → IsTrue keys raw p
        → IsCoherent truth now c
        → Agrees now
            (
              p.pages,
              prime_hits now p (record { cache = c; raw_keys = raw; keyspace_detected = true }),
            )
            (pages_held keys raw, record { raw = raw; detected = true })
    unfolding keyspace_of
    locked_on now keys raw p c t h =
        let s : Lookup = record { cache = c; raw_keys = raw; keyspace_detected = true } in
        record {
          answer = t.counted;
          keyspace = prime_hits-keyspace now p s;
          coherent = prime_hits-IsCoherent now p s t.found h;
        }

    choose_keyspace-Agrees :
        (now : ℕ) (keys : List String) (first : Probe) (s : Lookup)
        → IsTrue keys s.raw_keys first
        → IsCoherent truth now s.cache
        → Agrees now
            (choose_keyspace ask layout now keys first s)
            (plain_exists keys (keyspace_of s))
    unfolding choose_keyspace probe_other plain_exists keyspace_of
    choose_keyspace-Agrees now keys first s t h =
        let here = pages_held keys s.raw_keys in
        let other = pages_held keys (not s.raw_keys) in
        let p = keyspace_of s in
        let (probed, coherent) = probe-IsTrue now keys (not s.raw_keys) s.cache h in
        let found = probe ask layout now keys (not s.raw_keys) s.cache in
        let missed : Agrees now (first.pages, record s { cache = found.1 }) (here, p) = record {
          answer = t.counted;
          keyspace = refl;
          coherent = coherent;
        } in
        Agrees-if now (not (first.pages == 0)) (not (here == 0))
          (first.pages, prime_hits now first (record s { keyspace_detected = true }))
          (if s.keyspace_detected
            then (first.pages, s)
            else probe_other ask layout now keys first s)
          (here, record p { detected = true })
          (if s.keyspace_detected
            then (here, p)
            else if other == 0
            then (here, p)
            else (other, record { raw = not s.raw_keys; detected = true }))
          (ap (λ n. not (n == 0)) t.counted) (locked_on now keys s.raw_keys first s.cache t h)
          (Agrees-if now s.keyspace_detected s.keyspace_detected (first.pages, s)
            (probe_other ask layout now keys first s) (here, p)
            (if other == 0
              then (here, p)
              else (other, record { raw = not s.raw_keys; detected = true }))
            refl (record { answer = t.counted; keyspace = refl; coherent = h })
            (Agrees-if now (found.0.pages == 0) (other == 0)
              (first.pages, record s { cache = found.1 })
              (
                found.0.pages,
                prime_hits now found.0 (record {
                  cache = found.1;
                  raw_keys = not s.raw_keys;
                  keyspace_detected = true;
                }),
              )
              (here, p) (other, record { raw = not s.raw_keys; detected = true })
              (ap (λ n. n == 0) probed.counted) missed
              (locked_on now keys (not s.raw_keys) found.0 found.1 probed coherent)))

    later-IsCoherent :
        (now wait : ℕ) (c : Cache) → IsCoherent truth now c → IsCoherent truth (now + wait) c
    later-IsCoherent now wait c h = record {
      dir_current = later-IsCurrent truth now (now + wait) c.dir_cache (omega arith) h.dir_current;
      primed_current =
          later-IsCurrent truth now (now + wait) c.primed (omega arith) h.primed_current;
    }

    serve-Agrees :
        (now : ℕ) (call : Call) (s : Lookup)
        → IsCoherent truth now s.cache
        → Agrees now (serve ask layout now call s) (plain_serve call (keyspace_of s))
    unfolding serve plain_serve batch_exists keyspace_of use_raw_keys
    serve-Agrees now (exists_call keys) s h =
        let (t, coherent) = probe-IsTrue now keys s.raw_keys s.cache h in
        let first = probe ask layout now keys s.raw_keys s.cache in
        let agreed =
          choose_keyspace-Agrees now keys first.0 (record s { cache = first.1 }) t coherent in
        record {
          answer = ap pages agreed.answer;
          keyspace = agreed.keyspace;
          coherent = agreed.coherent;
        }
    serve-Agrees now (locate_call keys) s h =
        let (found, coherent) = take_primed-truth truth ask answers now keys s.cache h in
        record { answer = ap locations found; keyspace = refl; coherent = coherent }
    serve-Agrees now (failed_call keys) s h = record {
      answer = refl;
      keyspace = refl;
      coherent = dir_cache_invalidate-IsCoherent truth now keys s.cache h;
    }
    serve-Agrees now generic_call s h = record { answer = refl; keyspace = refl; coherent = h }

    -- While the directory does not change and answers every call, all the answers that a store gives
    -- through its two caches, from caches that agree with the directory, are those of a store that
    -- asks the directory each time: the pages of each `batch_exists`, whose keyspace is chosen
    -- alike, and the locations of each read, in any order of calls and whatever time passes between
    -- them.
    pub serve_all-plain :
        (now : ℕ) (calls : List (ℕ × Call)) (s : Lookup)
        → IsCoherent truth now s.cache
        → (serve_all ask layout now calls s).0 ≡ plain_serve_all calls (keyspace_of s)
    unfolding serve_all plain_serve_all
    serve_all-plain now [] s h = refl
    serve_all-plain now ((wait, call) ∷ calls) s h =
        let r = serve ask layout (now + wait) call s in
        let agreed = serve-Agrees (now + wait) call s (later-IsCoherent now wait s.cache h) in
        ap₂ (λ a as'. a ∷ as') agreed.answer
          (serve_all-plain (now + wait) calls r.1 agreed.coherent
            ∙ ap (plain_serve_all calls) agreed.keyspace)
