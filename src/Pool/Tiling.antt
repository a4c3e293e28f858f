-- ===== src/Pool/Tiling.antt =====
-- The pool's invariant: below `next_offset` every byte belongs to exactly one page or free slot.
use peer_cache.Base.{
  ℕ, ◌+◌, ◌≤◌, String, Option, none, some, List, [], ◌∷◌, ◌++◌, ◌≡◌, refl, ap, subst, inl, inr,
  arith, ltb, leb, if◌then◌else◌, Option-cases, Bool-cases, eq_string, ◌==◌, eq_ℕ,
}
use peer_cache.Base.Dict
use peer_cache.Base.Dict.{
  Dict, Unique, total, total-put_new, total-move_to_end, Unique-put, Unique-move_to_end,
}
use peer_cache.Base.Dict.{total-remove, Unique-remove}
use peer_cache.Pool.{
  Pool, Allocation, take_free, drop_oldest, take_slot, evict_loop, bump_or_evict, allocate, insert,
  touch,
}
use peer_cache.Pool.Free.{inside, cover_free, cover-give_free, cover-take_free}

abbrev pub cover_pages : ℕ → Dict String (ℕ × ℕ) → ℕ
cover_pages a = total (λ k page. inside a page.0 page.1)

abbrev pub bytes_of : Dict String (ℕ × ℕ) → ℕ
bytes_of = total (λ k page. page.1)

-- In how many pages and free slots the offset `a` lies.
unfoldable pub cover : ℕ → Pool → ℕ
cover a p = cover_pages a p.entries + cover_free a p.free

-- `held a` is 1 where a slot that is allocated and not yet entered covers the offset.
pub record Tiles (held : ℕ → ℕ) (p : Pool) : Type 0 where
  pub unique : Unique p.entries
  pub tiled : (a : ℕ) → cover a p + held a ≡ (if ltb a p.next_offset then 1 else 0)
  pub bounded : p.next_offset ≤ p.capacity
  pub accounted : p.used ≡ bytes_of p.entries

-- The invariant between calls.
abbrev pub IsValid : Pool → Type 0
IsValid = Tiles (λ a. 0)

abbrev pub slot : ℕ → ℕ → ℕ → ℕ
slot off len a = inside a off len

-- What `_allocate` promises.
abbrev pub AllocatedAt : ℕ → Pool → Option ℕ → Type 0
AllocatedAt len p none = IsValid p
AllocatedAt len p (some off) = Tiles (slot off len) p

abbrev pub Allocated : ℕ → Allocation → Type 0
Allocated len r = AllocatedAt len r.pool r.offset

drop_oldest-IsValid :
    (k : String) (page : ℕ × ℕ) (rest : Dict String (ℕ × ℕ)) {p : Pool}
    → p.entries ≡ (k, page) ∷ rest
    → IsValid p
    → IsValid (drop_oldest k page rest p)
unfolding drop_oldest cover
drop_oldest-IsValid k page rest {p} e v =
    let u : Unique ((k, page) ∷ rest) = subst Unique e v.unique in
    record {
      unique = u.1;
      tiled = λ a.
          omega (arith, v.tiled a, cover-give_free a page.1 page.0 p.free, ap (cover_pages a) e);
      bounded = v.bounded;
      accounted = omega (arith, v.accounted, ap bytes_of e);
    }

take_slot-Allocated :
    (len : ℕ) (p : Pool) (evicted : List String)
    → IsValid p
    → Allocated len (take_slot len p evicted)
unfolding take_slot cover
take_slot-Allocated len p evicted v = elim (Option-cases (take_free len p.free)) [
  | inl empty ↦ rw (empty, take_slot) v
  | inr ((off, rest), taken) ↦
      rw (taken, take_slot)
        (record {
          unique = v.unique;
          tiled = λ a. omega (arith, v.tiled a, cover-take_free a len off p.free rest taken);
          bounded = v.bounded;
          accounted = v.accounted;
        })
]

evict_loop-Allocated :
    (len : ℕ) (left : Dict String (ℕ × ℕ)) (p : Pool) (evicted : List String)
    → p.entries ≡ left
    → IsValid p
    → Allocated len (evict_loop len left p evicted)
unfolding evict_loop drop_oldest
evict_loop-Allocated len [] p evicted e v = v
evict_loop-Allocated len ((k, page) ∷ left) p evicted e v =
    let v' = drop_oldest-IsValid k page left e v in
    elim (Bool-cases (page.1 == len)) [
      | inl fits ↦ rw fits (take_slot-Allocated len _ _ v')
      | inr other ↦
          rw other
            (evict_loop-Allocated len left (drop_oldest k page left p) (evicted ++ k ∷ []) refl v')
    ]

-- The fresh slot at the end of what is in use.
bump_tiles :
    (a next len : ℕ)
    → (if ltb a next then 1 else 0) + inside a next len ≡ (if ltb a (next + len) then 1 else 0)
unfolding inside
bump_tiles a next len = ground arith

pub allocate-Allocated : (len : ℕ) (p : Pool) → IsValid p → Allocated len (allocate len p)
unfolding allocate cover bump_or_evict
allocate-Allocated len p v = elim (Bool-cases (ltb p.capacity len)) [
  | inl big ↦ rw big v
  | inr small ↦ rw small (elim (Option-cases (take_free len p.free)) [
    | inr ((off, rest), taken) ↦
        rw (taken, allocate)
          (record {
            unique = v.unique;
            tiled = λ a. omega (arith, v.tiled a, cover-take_free a len off p.free rest taken);
            bounded = v.bounded;
            accounted = v.accounted;
          })
    | inl none_free ↦
        rw (none_free, allocate)
          (elim (Bool-cases (leb (p.next_offset + len) p.capacity)) [
            | inl room ↦ rw room (record {
              unique = v.unique;
              tiled = λ a. omega (arith, v.tiled a, bump_tiles a p.next_offset len);
              bounded = ground arith;
              accounted = v.accounted;
            })
            | inr full ↦ rw full (evict_loop-Allocated len p.entries p [] refl v)
          ])
  ])
]

-- Entering the allocated slot under a new key gives back the invariant.
pub insert-IsValid :
    (key : String) (off len : ℕ) {p : Pool}
    → Dict.get key p.entries ≡ none
    → Tiles (slot off len) p
    → IsValid (insert key off len p)
unfolding insert cover
insert-IsValid key off len {p} missing v =
    let d = Dict.put key (off, len) p.entries in
    let u = Unique-put key (off, len) p.entries v.unique in
    record {
      unique = Unique-move_to_end key d u;
      tiled = λ a. omega (
        arith,
        v.tiled a,
        total-move_to_end (λ k page. inside a page.0 page.1) key d u,
        total-put_new (λ k page. inside a page.0 page.1) key (off, len) p.entries missing,
      );
      bounded = v.bounded;
      accounted = omega (
        arith,
        v.accounted,
        total-move_to_end (λ k page. page.1) key d u,
        total-put_new (λ k page. page.1) key (off, len) p.entries missing,
      );
    }

pub touch-IsValid : (key : String) {p : Pool} → IsValid p → IsValid (touch key p)
unfolding touch cover
touch-IsValid key {p} v = record {
  unique = Unique-move_to_end key p.entries v.unique;
  tiled = λ a. omega (
    arith,
    v.tiled a,
    total-move_to_end (λ k page. inside a page.0 page.1) key p.entries v.unique,
  );
  bounded = v.bounded;
  accounted =
      omega (arith, v.accounted, total-move_to_end (λ k page. page.1) key p.entries v.unique);
}
