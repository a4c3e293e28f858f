-- ===== src/Pool.antt =====
-- python/peercache/pool.py: `PublishedPool`, the node-local pool of published pages.
-- A method returns its result beside the new pool. `on_evict` is called by the caller of
-- `publish` and `reserve` with the keys that they return as evicted.
mod Free
mod Eviction
pub mod Tiling
pub mod Operations
pub mod Pages
pub mod Lru
pub mod Keeps
pub mod Copies
use peer_cache.Base.{
  ℕ, ◌+◌, ◌-◌, String, Option, none, some, Bool, List, [], ◌∷◌, ◌++◌, map, ltb, leb, ◌==◌, eq_ℕ,
  eq_string, ◌&&◌, length, if◌then◌else◌,
}
use peer_cache.Base.Memory.{Memory, memmove}
use peer_cache.Base.Dict
use peer_cache.Base.Dict.{Dict}

pub record Pool : Type 0 where
  pub base : ℕ
  pub capacity : ℕ
  pub rkey : ℕ
  pub rkeys : List ℕ
  pub next_offset : ℕ
  -- length -> free offsets
  pub free : Dict ℕ (List ℕ)
  -- key -> (offset, length), least recently used first
  pub entries : Dict String (ℕ × ℕ)
  pub used : ℕ

unfoldable pub init : ℕ → ℕ → ℕ → List ℕ → Pool
init base capacity rkey rkeys = record {
  base = base;
  capacity = capacity;
  rkey = rkey;
  rkeys = elim rkeys [ [] ↦ rkey ∷ [] | r ∷ rs ↦ r ∷ rs ];
  next_offset = 0;
  free = [];
  entries = [];
  used = 0;
}

-- `l.pop()`
unfoldable pub pop_last : List ℕ → Option (ℕ × List ℕ)
pop_last [] = none
pop_last (x ∷ xs) = elim (pop_last xs) [ none ↦ some (x, []) | some (y, r) ↦ some (y, x ∷ r) ]

-- `free_list = self._free.get(length); if free_list: free_list.pop()`
unfoldable pub take_free : ℕ → Dict ℕ (List ℕ) → Option (ℕ × Dict ℕ (List ℕ))
take_free len free = elim (pop_last (Dict.get_or len free [])) [
  | none ↦ none
  | some (off, rest) ↦ some (off, Dict.put len rest free)
]

-- `self._free.setdefault(len, []).append(off)`
unfoldable pub give_free : ℕ → ℕ → Dict ℕ (List ℕ) → Dict ℕ (List ℕ)
give_free len off free = Dict.put len (Dict.get_or len free [] ++ off ∷ []) free

pub record Allocation : Type 0 where
  pub offset : Option ℕ
  pub pool : Pool
  pub evicted : List String

-- One round of the `while`: the oldest page is dropped, its slot is free.
unfoldable pub drop_oldest : String → ℕ × ℕ → Dict String (ℕ × ℕ) → Pool → Pool
drop_oldest key page rest p = record p {
  entries = rest;
  used = p.used - page.1;
  free = give_free page.1 page.0 p.free;
}

-- `return self._free[length].pop()`
unfoldable pub take_slot : ℕ → Pool → List String → Allocation
take_slot len p evicted = elim (take_free len p.free) [
  | none ↦ record { offset = none; pool = p; evicted = evicted }
  | some (off, free) ↦ record {
    offset = some off;
    pool = record p { free = free };
    evicted = evicted;
  }
]

-- The `while self._entries` loop of `_allocate`, over the entries that are left.
unfoldable pub evict_loop : ℕ → Dict String (ℕ × ℕ) → Pool → List String → Allocation
evict_loop len [] p evicted = record { offset = none; pool = p; evicted = evicted }
evict_loop len ((old_key, page) ∷ rest) p evicted =
    let p' = drop_oldest old_key page rest p in
    let evicted' = evicted ++ old_key ∷ [] in
    let more = evict_loop len rest p' evicted' in
    if page.1 == len then take_slot len p' evicted' else more

unfoldable pub bump_or_evict : ℕ → Pool → Allocation
bump_or_evict len p =
    if leb (p.next_offset + len) p.capacity
    then record {
      offset = some p.next_offset;
      pool = record p { next_offset = p.next_offset + len };
      evicted = [];
    }
    else evict_loop len p.entries p []

unfoldable pub allocate : ℕ → Pool → Allocation
allocate len p =
    if ltb p.capacity len
    then record { offset = none; pool = p; evicted = [] }
    else elim (take_free len p.free) [
      | some (off, free) ↦ record {
        offset = some off;
        pool = record p { free = free };
        evicted = [];
      }
      | none ↦ bump_or_evict len p
    ]

-- `self._entries[key] = (off, length); move_to_end(key); self._used += length`
unfoldable pub insert : String → ℕ → ℕ → Pool → Pool
insert key off len p = record p {
  entries = Dict.move_to_end key (Dict.put key (off, len) p.entries);
  used = p.used + len;
}

-- `self._entries.move_to_end(key)`
unfoldable pub touch : String → Pool → Pool
touch key p = record p { entries = Dict.move_to_end key p.entries }

pub record Reserved : Type 0 where
  pub addr : Option ℕ
  pub pool : Pool
  pub evicted : List String

unfoldable pub admit : String → ℕ → Allocation → Reserved
admit key len r = elim r.offset [
  | none ↦ record { addr = none; pool = r.pool; evicted = r.evicted }
  | some off ↦ record {
    addr = some (r.pool.base + off);
    pool = insert key off len r.pool;
    evicted = r.evicted;
  }
]

unfoldable pub reserve : String → ℕ → Pool → Reserved
reserve key len p = elim (Dict.get key p.entries) [
  | some page ↦ record { addr = some (p.base + page.0); pool = touch key p; evicted = [] }
  | none ↦ admit key len (allocate len p)
]

pub record Published : Type 0 where
  pub addr : Option ℕ
  pub pool : Pool
  pub evicted : List String
  pub memory : Memory

unfoldable pub admit_copy : String → ℕ → ℕ → Memory → Allocation → Published
admit_copy key src len m r = elim r.offset [
  | none ↦ record { addr = none; pool = r.pool; evicted = r.evicted; memory = m }
  | some off ↦ record {
    addr = some (r.pool.base + off);
    pool = insert key off len r.pool;
    evicted = r.evicted;
    memory = memmove (r.pool.base + off) src len m;
  }
]

unfoldable pub publish : String → ℕ → ℕ → Pool → Memory → Published
publish key src len p m = elim (Dict.get key p.entries) [
  | some page ↦ record {
    addr = some (p.base + page.0);
    pool = touch key p;
    evicted = [];
    memory = m;
  }
  | none ↦ admit_copy key src len m (allocate len p)
]

unfoldable pub address_of : String → Pool → Option (ℕ × ℕ) × Pool
address_of key p = elim (Dict.get key p.entries) [
  | none ↦ (none, p)
  | some page ↦ (some (p.base + page.0, page.1), touch key p)
]

unfoldable pub remove : String → Pool → Pool
remove key p = elim (Dict.get key p.entries) [
  | none ↦ p
  | some page ↦ record p {
    entries = Dict.remove key p.entries;
    used = p.used - page.1;
    free = give_free page.1 page.0 p.free;
  }
]

unfoldable pub snapshot : Pool → List (String × ℕ × ℕ)
snapshot p = map (λ e. (e.0, p.base + e.1.0, e.1.1)) p.entries

unfoldable pub bytes_used : Pool → ℕ
bytes_used p = p.used

unfoldable pub contains : String → Pool → Bool
contains key p = Dict.has key p.entries

unfoldable pub size : Pool → ℕ
size p = length p.entries
