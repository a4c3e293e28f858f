-- ===== src/Pool/Operations.antt =====
-- Every method of the pool keeps the invariant.
use peer_cache.Base.{
  ℕ, String, List, [], ◌∷◌, ◌≡◌, refl, subst, inl, inr, arith, Option-cases, eq_string, eq_ℕ,
}
use peer_cache.Base.Dict
use peer_cache.Base.Dict.{total-remove, Unique-remove, add-le-total}
use peer_cache.Base.Memory.{Memory}
use peer_cache.Pool.{Pool, allocate, init, reserve, publish, address_of, remove, admit, admit_copy}
use peer_cache.Pool.Free.{inside, cover-give_free}
use peer_cache.Pool.Eviction.{allocate-Evicts, Evicts-missing}
use peer_cache.Pool.Tiling.{
  IsValid, Allocated, AllocatedAt, cover, allocate-Allocated, insert-IsValid, touch-IsValid,
}

-- `publish` and `reserve` return the same address, leave the same pool and report the same
-- evictions.
publish-eq-reserve :
    (key : String) (src len : ℕ) (p : Pool) (m : Memory)
    → ((publish key src len p m).addr ≡ (reserve key len p).addr)
      × ((publish key src len p m).pool ≡ (reserve key len p).pool)
      × ((publish key src len p m).evicted ≡ (reserve key len p).evicted)
unfolding publish reserve admit admit_copy
publish-eq-reserve key src len p m = elim (Option-cases (Dict.get key p.entries)) [
  | inr (page, hit) ↦ rw (hit, publish, reserve) (refl, refl, refl)
  | inl miss ↦ elim (Option-cases (allocate len p).offset) [
    | inl full ↦ rw (miss, publish, reserve, full, admit, admit_copy) (refl, refl, refl)
    | inr (off, got) ↦ rw (miss, publish, reserve, got, admit, admit_copy) (refl, refl, refl)
  ]
]

pub reserve-IsValid :
    (key : String) (len : ℕ) {p : Pool} → IsValid p → IsValid (reserve key len p).pool
unfolding reserve admit
reserve-IsValid key len {p} v = elim (Option-cases (Dict.get key p.entries)) [
  | inr (page, hit) ↦ rw (hit, reserve) (touch-IsValid key v)
  | inl miss ↦
      let r = allocate len p in
      let got : Allocated len r = allocate-Allocated len p v in
      elim (Option-cases r.offset) [
        | inl full ↦ rw (miss, reserve, full, admit) (subst (AllocatedAt len r.pool) full got)
        | inr (off, found) ↦
            rw (miss, reserve, found, admit)
              (insert-IsValid key off len (Evicts-missing key (allocate-Evicts len p) miss)
                (subst (AllocatedAt len r.pool) found got))
      ]
]

pub address_of-IsValid : (key : String) {p : Pool} → IsValid p → IsValid (address_of key p).1
unfolding address_of
address_of-IsValid key {p} v = elim (Option-cases (Dict.get key p.entries)) [
  | inl miss ↦ rw (miss, address_of) v
  | inr (page, hit) ↦ rw (hit, address_of) (touch-IsValid key v)
]

pub remove-IsValid : (key : String) {p : Pool} → IsValid p → IsValid (remove key p)
unfolding remove cover
remove-IsValid key {p} v = elim (Option-cases (Dict.get key p.entries)) [
  | inl miss ↦ rw (miss, remove) v
  | inr (page, hit) ↦
      rw (hit, remove)
        (record {
          unique = Unique-remove key p.entries v.unique;
          tiled = λ a. omega (
            arith,
            v.tiled a,
            cover-give_free a page.1 page.0 p.free,
            total-remove (λ k page. inside a page.0 page.1) key page p.entries v.unique hit,
          );
          bounded = v.bounded;
          accounted =
              omega (
                arith,
                v.accounted,
                total-remove (λ k page. page.1) key page p.entries v.unique hit,
              );
        })
]

pub publish-IsValid :
    (key : String) (src len : ℕ) (m : Memory) {p : Pool}
    → IsValid p
    → IsValid (publish key src len p m).pool
publish-IsValid key src len m {p} v =
    rw (publish-eq-reserve key src len p m).1 (reserve-IsValid key len v)

pub init-IsValid :
    (base capacity rkey : ℕ) (rkeys : List ℕ) → IsValid (init base capacity rkey rkeys)
unfolding init cover
init-IsValid base capacity rkey rkeys = record {
  unique = tt;
  tiled = λ a. ground arith;
  bounded = omega arith;
  accounted = refl;
}

-- The calls that change a pool, in the order in which its lock serves them.
pub data Call : Type 0 where
  publish_page : String → ℕ → ℕ → Call
  reserve_page : String → ℕ → Call
  find : String → Call
  drop_page : String → Call

unfoldable pub run : List Call → Pool → Memory → Pool × Memory
run [] p m = (p, m)
run (publish_page key src len ∷ calls) p m =
    let r = publish key src len p m in run calls r.pool r.memory
run (reserve_page key len ∷ calls) p m = run calls (reserve key len p).pool m
run (find key ∷ calls) p m = run calls (address_of key p).1 m
run (drop_page key ∷ calls) p m = run calls (remove key p) m

pub run-IsValid :
    (calls : List Call) {p : Pool} (m : Memory) → IsValid p → IsValid (run calls p m).0
unfolding run
run-IsValid [] m v = v
run-IsValid (publish_page key src len ∷ calls) {p} m v =
    run-IsValid calls (publish key src len p m).memory (publish-IsValid key src len m v)
run-IsValid (reserve_page key len ∷ calls) m v = run-IsValid calls m (reserve-IsValid key len v)
run-IsValid (find key ∷ calls) m v = run-IsValid calls m (address_of-IsValid key v)
run-IsValid (drop_page key ∷ calls) m v = run-IsValid calls m (remove-IsValid key v)

-- From a new pool, whatever the calls: below `next_offset` every offset lies in exactly one page
-- or free slot, above it in none, `next_offset` is at most the capacity, no key is entered twice,
-- and `used` is the sum of the lengths of the pages.
pub run-init-IsValid :
    (base capacity rkey : ℕ) (rkeys : List ℕ) (calls : List Call) (m : Memory)
    → IsValid (run calls (init base capacity rkey rkeys) m).0
run-init-IsValid base capacity rkey rkeys calls m =
    run-IsValid calls m (init-IsValid base capacity rkey rkeys)
