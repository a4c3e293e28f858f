-- ===== src/Pool/Lru.antt =====
-- Which pages a full pool displaces, against a plain description of the choice.
use mathlib.Core.Option
use peer_cache.Base.{
  ℕ, ◌+◌, ◌≤◌, ◌<◌, String, Option, none, some, List, [], ◌∷◌, ◌++◌, ◌≡◌, refl, ap, ◌∙◌, inl, inr,
  arith, if◌then◌else◌, Option-cases, Bool-cases, append_assoc, append-nil, eq_string, ◌==◌, eq_ℕ,
}
use peer_cache.Base.Dict
use peer_cache.Base.Dict.{Dict, keys, put-new, move_to_end-new}
use peer_cache.Base.Memory.{Memory}
use peer_cache.Pool.{
  Pool, Allocation, take_free, take_slot, drop_oldest, evict_loop, bump_or_evict, allocate, publish,
  admit_copy, insert,
}
use peer_cache.Pool.Free.{take-give_free}
use peer_cache.Pool.Eviction.{allocate-Evicts, Evicts-missing}

-- The pages up to the first one of length `len`, that one included; the rest; its offset.
abbrev pub displaced : ℕ → Dict String (ℕ × ℕ) → Dict String (ℕ × ℕ)
displaced len [] = []
displaced len ((k, page) ∷ pages) =
    if page.1 == len then (k, page) ∷ [] else (k, page) ∷ displaced len pages

abbrev pub remaining : ℕ → Dict String (ℕ × ℕ) → Dict String (ℕ × ℕ)
remaining len [] = []
remaining len ((k, page) ∷ pages) = if page.1 == len then pages else remaining len pages

abbrev pub first_fit : ℕ → Dict String (ℕ × ℕ) → Option ℕ
first_fit len [] = none
first_fit len ((k, page) ∷ pages) = if page.1 == len then some page.0 else first_fit len pages

-- The slot that the last dropped page gave back is the one that is taken.
take_slot-drop_oldest :
    (k : String) (page : ℕ × ℕ) (rest : Dict String (ℕ × ℕ)) (p : Pool) (evicted : List String)
    → ((take_slot page.1 (drop_oldest k page rest p) evicted).offset ≡ some page.0)
      × ((take_slot page.1 (drop_oldest k page rest p) evicted).pool.entries ≡ rest)
      × ((take_slot page.1 (drop_oldest k page rest p) evicted).evicted ≡ evicted)
unfolding take_slot drop_oldest
take_slot-drop_oldest k page rest p evicted =
    let (free, taken) = take-give_free page.1 page.0 p.free in
    rw (taken, take_slot) (refl, refl, refl)

evict_loop-chooses :
    (len : ℕ) (pages : Dict String (ℕ × ℕ)) (p : Pool) (evicted : List String)
    → p.entries ≡ pages
    → ((evict_loop len pages p evicted).offset ≡ first_fit len pages)
      × ((evict_loop len pages p evicted).pool.entries ≡ remaining len pages)
      × ((evict_loop len pages p evicted).evicted ≡ evicted ++ keys (displaced len pages))
unfolding evict_loop
evict_loop-chooses len [] p evicted e = (refl, e, rw append-nil)
evict_loop-chooses len ((k, page) ∷ rest) p evicted e = elim (Bool-cases (page.1 == len)) [
  | inl fits ↦
      let same : page.1 ≡ len = ground arith in
      rw (fits, ← same) (take_slot-drop_oldest k page rest p (evicted ++ k ∷ []))
  | inr other ↦
      let (o, n, v) =
        evict_loop-chooses len rest (drop_oldest k page rest p) (evicted ++ k ∷ [])
          (unfold drop_oldest in refl) in
      rw other (o, n, v ∙ append_assoc evicted (k ∷ []) (keys (displaced len rest)))
]

entries-insert :
    (key : String) (off len : ℕ) (p : Pool)
    → Dict.get key p.entries ≡ none
    → (insert key off len p).entries ≡ p.entries ++ (key, (off, len)) ∷ []
unfolding insert
entries-insert key off len p miss = move_to_end-new key (off, len) p.entries miss

-- The pool has no slot of the size: no free one, and no room behind what is in use.
pub record IsFull (len : ℕ) (p : Pool) : Type 0 where
  pub fits : len ≤ p.capacity
  pub none_free : take_free len p.free ≡ none
  pub no_room : p.capacity < p.next_offset + len

allocate_full : (len : ℕ) (p : Pool) → IsFull len p → allocate len p ≡ evict_loop len p.entries p []
unfolding allocate bump_or_evict
allocate_full len p full = ground (arith, full.none_free)

abbrev pub entered : String → ℕ → Option ℕ → Dict String (ℕ × ℕ)
entered key len none = []
entered key len (some off) = (key, (off, len)) ∷ []

-- A key that the pool does not hold, of a length that is at most the capacity and for which there
-- is neither a free slot nor room behind what is in use, displaces the least recently used pages
-- up to the first one of its own length, whose slot it takes, and goes to the recent end. Where
-- no page has that length, every page is displaced and the call returns no address.
pub publish_full :
    (key : String) (src len : ℕ) (p : Pool) (m : Memory)
    → Dict.get key p.entries ≡ none
    → IsFull len p
    → ((publish key src len p m).addr ≡ Option.map (λ off. p.base + off) (first_fit len p.entries))
      × ((publish key src len p m).evicted ≡ keys (displaced len p.entries))
      × ((publish key src len p m).pool.entries
          ≡ remaining len p.entries ++ entered key len (first_fit len p.entries))
unfolding publish admit_copy
publish_full key src len p m miss full =
    let r = allocate len p in
    let e = allocate_full len p full in
    let ev = allocate-Evicts len p in
    let (o, n, v) = evict_loop-chooses len p.entries p [] refl in
    let offset : r.offset ≡ first_fit len p.entries = ap (λ (a : Allocation). a.offset) e ∙ o in
    let kept : r.pool.entries ≡ remaining len p.entries =
      ap (λ (a : Allocation). a.pool.entries) e ∙ n in
    let gone : r.evicted ≡ keys (displaced len p.entries) =
      ap (λ (a : Allocation). a.evicted) e ∙ v in
    elim (Option-cases r.offset) [
      | inl nowhere ↦
          rw (miss, publish, nowhere, admit_copy, ← offset, nowhere)
            (refl, gone, rw append-nil kept)
      | inr (off, found) ↦
          rw (miss, publish, found, admit_copy, ← offset, found)
            (
              ap (λ b. some (b + off)) ev.base,
              gone,
              entries-insert key off len r.pool (Evicts-missing key ev miss)
                  ∙ ap (λ es. es ++ (key, (off, len)) ∷ []) kept,
            )
    ]
