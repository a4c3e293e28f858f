-- ===== src/Pool/Eviction.antt =====
-- What `_allocate` evicts: a prefix of the entries, which stand least recently used first.
use peer_cache.Base.{
  ℕ, ◌+◌, String, none, some, List, [], ◌∷◌, ◌++◌, ◌≡◌, refl, sym, ap, elem, false, inl, inr, arith,
  ltb, leb, append_assoc, Option-cases, Bool-cases, eq_string, ◌==◌, eq_ℕ,
}
use peer_cache.Base.Dict
use peer_cache.Base.Dict.{Dict, keys, get-append, get-missing}
use peer_cache.Pool.{
  Pool, Allocation, take_free, drop_oldest, take_slot, evict_loop, bump_or_evict, allocate,
}

-- `gone` are the pages that the allocation displaced, oldest first.
pub record Evicts (p : Pool) (r : Allocation) : Type 0 where
  pub gone : Dict String (ℕ × ℕ)
  pub split : p.entries ≡ gone ++ r.pool.entries
  pub reported : r.evicted ≡ keys gone
  pub base : r.pool.base ≡ p.base
  pub capacity : r.pool.capacity ≡ p.capacity

keys-append_one :
    (gone : Dict String (ℕ × ℕ)) (k : String) (page : ℕ × ℕ)
    → keys (gone ++ (k, page) ∷ []) ≡ keys gone ++ k ∷ []
keys-append_one [] k page = refl
keys-append_one (e ∷ gone) k page = ground (arith, keys-append_one gone k page)

module _ (len : ℕ) (start : Pool) where
  take_slot-Evicts :
      (p : Pool) (gone : Dict String (ℕ × ℕ)) (evicted : List String)
      → start.entries ≡ gone ++ p.entries
      → evicted ≡ keys gone
      → p.base ≡ start.base
      → p.capacity ≡ start.capacity
      → Evicts start (take_slot len p evicted)
  unfolding take_slot
  take_slot-Evicts p gone evicted split reported b c = elim (Option-cases (take_free len p.free)) [
    | inl empty ↦
        rw (empty, take_slot)
          (record { gone = gone; split = split; reported = reported; base = b; capacity = c })
    | inr (slot, taken) ↦
        rw (taken, take_slot)
          (record { gone = gone; split = split; reported = reported; base = b; capacity = c })
  ]

  evict_loop-Evicts :
      (left : Dict String (ℕ × ℕ)) (p : Pool) (gone : Dict String (ℕ × ℕ)) (evicted : List String)
      → p.entries ≡ left
      → start.entries ≡ gone ++ left
      → evicted ≡ keys gone
      → p.base ≡ start.base
      → p.capacity ≡ start.capacity
      → Evicts start (evict_loop len left p evicted)
  unfolding evict_loop drop_oldest
  evict_loop-Evicts [] p gone evicted here split reported b c = record {
    gone = gone;
    split = rw here split;
    reported = reported;
    base = b;
    capacity = c;
  }
  evict_loop-Evicts ((k, page) ∷ left) p gone evicted here split reported b c =
      let gone' = gone ++ (k, page) ∷ [] in
      let split' : start.entries ≡ gone' ++ left = rw append_assoc split in
      let reported' : evicted ++ k ∷ [] ≡ keys gone' = rw (keys-append_one, reported) in
      elim (Bool-cases (page.1 == len)) [
        | inl fits ↦ rw fits (
            take_slot-Evicts (drop_oldest k page left p) gone' (evicted ++ k ∷ []) split' reported'
              b c)
        | inr other ↦ rw other (
            evict_loop-Evicts left (drop_oldest k page left p) gone' (evicted ++ k ∷ []) refl split'
              reported' b c)
      ]

  nothing_gone :
      (r : Allocation)
      → r.pool.entries ≡ start.entries
      → r.evicted ≡ []
      → r.pool.base ≡ start.base
      → r.pool.capacity ≡ start.capacity
      → Evicts start r
  nothing_gone r same empty b c = record {
    gone = [];
    split = sym same;
    reported = empty;
    base = b;
    capacity = c;
  }

  pub allocate-Evicts : Evicts start (allocate len start)
  unfolding allocate bump_or_evict
  allocate-Evicts = elim (Bool-cases (ltb start.capacity len)) [
    | inl big ↦ rw big (nothing_gone _ refl refl refl refl)
    | inr small ↦ rw small (elim (Option-cases (take_free len start.free)) [
      | inr (slot, taken) ↦ rw (taken, allocate) (nothing_gone _ refl refl refl refl)
      | inl none_free ↦
          rw (none_free, allocate)
            (elim (Bool-cases (leb (start.next_offset + len) start.capacity)) [
              | inl room ↦ rw room (nothing_gone _ refl refl refl refl)
              | inr full ↦
                  rw full (evict_loop-Evicts start.entries start [] [] refl refl refl refl refl)
            ])
    ])
  ]

-- A key that the pool does not hold is not among the entries that stay.
pub Evicts-missing :
    {p : Pool} {r : Allocation} (key : String)
    → Evicts p r
    → Dict.get key p.entries ≡ none
    → Dict.get key r.pool.entries ≡ none
Evicts-missing {p} {r} key h missing =
    ground (arith, ap (Dict.get key) h.split, get-append key h.gone r.pool.entries)

-- What stays is found as before, and what is found and not evicted stays.
pub Evicts-kept :
    {p : Pool} {r : Allocation} (key : String) {page : ℕ × ℕ}
    → Evicts p r
    → Dict.get key p.entries ≡ some page
    → elem key r.evicted ≡ false
    → Dict.get key r.pool.entries ≡ some page
Evicts-kept {p} {r} key h found kept = ground (
  arith,
  ap (Dict.get key) h.split,
  get-append key h.gone r.pool.entries,
  get-missing key h.gone,
  h.reported,
)
