-- ===== src/Pool/Pages.antt =====
-- Where the pages lie, and what their bytes are.
use peer_cache.Base.{
  ℕ, ◌+◌, ◌≤◌, ◌<◌, ◌⊎◌, ◌≢◌, String, none, some, ◌≡◌, refl, subst, ◌∙◌, inl, inr, arith, elem,
  false, max, if◌then◌else◌, Option-cases, eq_string, ◌==◌, eq_ℕ, ==_iff, ==_refl,
}
use peer_cache.Base.Dict
use peer_cache.Base.Dict.{add-le-total, le-total, get-move_to_end, get-put, get-put_self}
use peer_cache.Base.Memory.{Memory, memmove_at, memmove_outside}
use peer_cache.Pool.{Pool, allocate, publish, address_of, admit_copy, insert, touch}
use peer_cache.Pool.Free.{inside}
use peer_cache.Pool.Eviction.{allocate-Evicts, Evicts-kept}
use peer_cache.Pool.Tiling.{Tiles, IsValid, AllocatedAt, slot, cover, allocate-Allocated}

-- A page that covers an offset lies below `next_offset` there.
pub page-below :
    {p : Pool} {held : ℕ → ℕ} (key : String) (page : ℕ × ℕ) (a : ℕ)
    → Tiles held p
    → Dict.get key p.entries ≡ some page
    → page.0 ≤ a
    → a < page.0 + page.1
    → a < p.next_offset
unfolding cover inside
page-below {p} key page a v found lo hi =
    ground (arith, v.tiled a, le-total (λ k page. inside a page.0 page.1) key page p.entries found)

-- In a valid pool the pages of two keys, neither of them empty, do not overlap.
pages_disjoint :
    {p : Pool} (j k : String) (a b : ℕ × ℕ)
    → IsValid p
    → j ≢ k
    → Dict.get j p.entries ≡ some a
    → Dict.get k p.entries ≡ some b
    → 0 < a.1
    → 0 < b.1
    → (a.0 + a.1 ≤ b.0) ⊎ (b.0 + b.1 ≤ a.0)
unfolding cover inside
pages_disjoint {p} j k a b v ne hj hk pa pb =
    let x = max a.0 b.0 in
    ground
      (arith, v.tiled x, add-le-total (λ k page. inside x page.0 page.1) j k a b p.entries ne hj hk)

get-insert :
    (key j : String) (off len : ℕ) (p : Pool)
    → Dict.get j (insert key off len p).entries
      ≡ (if key == j then some (off, len) else Dict.get j p.entries)
unfolding insert
get-insert key j off len p = simp (get-move_to_end, get-put)

get-insert_self :
    (key : String) (off len : ℕ) (p : Pool)
    → Dict.get key (insert key off len p).entries ≡ some (off, len)
get-insert_self key off len p = simp (get-insert, ==_refl)

address_of_lem :
    (key : String) (p : Pool) {page : ℕ × ℕ}
    → Dict.get key p.entries ≡ some page
    → (address_of key p).0 ≡ some (p.base + page.0, page.1)
unfolding address_of
address_of_lem key p found = rw (found, address_of)

insert-base : (key : String) (off len : ℕ) (p : Pool) → (insert key off len p).base ≡ p.base
unfolding insert
insert-base key off len p = refl

-- A slot that the allocation hands out overlaps no page that stays.
held_apart :
    {p : Pool} (off len a : ℕ) (key : String) (page : ℕ × ℕ)
    → Tiles (slot off len) p
    → Dict.get key p.entries ≡ some page
    → page.0 ≤ a
    → a < page.0 + page.1
    → (a < off) ⊎ (off + len ≤ a)
unfolding cover inside
held_apart {p} off len a key page v found lo hi =
    ground (arith, v.tiled a, le-total (λ k page. inside a page.0 page.1) key page p.entries found)

shift :
    (a off len b c : ℕ)
    → (a < off) ⊎ (off + len ≤ a)
    → c ≡ b
    → (b + a < c + off) ⊎ (c + off + len ≤ b + a)
shift a off len b c h e = ground arith

module _ (key : String) (src len : ℕ) (p : Pool) (m : Memory) where
  -- Publishing a key that the pool holds copies nothing and returns the address of its page.
  pub publish-hit :
      (page : ℕ × ℕ)
      → Dict.get key p.entries ≡ some page
      → (publish key src len p m).addr ≡ some (p.base + page.0)
  unfolding publish
  publish-hit page hit = rw (hit, publish)

  -- A key that the pool does not hold, and for which `publish` returns an address, is found at
  -- that address with its length, and the bytes there are those that the source held before.
  pub publish-address_of :
      (x : ℕ)
      → Dict.get key p.entries ≡ none
      → (publish key src len p m).addr ≡ some x
      → ((address_of key (publish key src len p m).pool).0 ≡ some (x, len))
        × ((i : ℕ) → i < len → (publish key src len p m).memory (x + i) ≡ m (src + i))
  unfolding publish admit_copy
  publish-address_of x miss = elim (Option-cases (allocate len p).offset) [
    | inl full ↦ rw (miss, publish, full, admit_copy) (λ h. absurd (cc))
    | inr (off, got) ↦
        rw (miss, publish, got, admit_copy)
          (λ h.
            let q = (allocate len p).pool in
            let e : q.base + off ≡ x = ground arith in
            (
              rw
                  (
                    address_of_lem key (insert key off len q) (get-insert_self key off len q),
                    insert-base key off len q,
                    e,
                  )
                  refl,
              λ i lt. rw (← e) (memmove_at (q.base + off) src len i m lt),
            ))
  ]

  -- In a valid pool the page of another key that `publish` does not report as evicted stays where
  -- it is, with its bytes, and the base address stays.
  pub publish-keeps :
      (j : String) (page : ℕ × ℕ)
      → IsValid p
      → j ≢ key
      → Dict.get j p.entries ≡ some page
      → elem j (publish key src len p m).evicted ≡ false
      → (Dict.get j (publish key src len p m).pool.entries ≡ some page)
        × ((publish key src len p m).pool.base ≡ p.base)
        × ((a : ℕ)
            → page.0 ≤ a
            → a < page.0 + page.1
            → (publish key src len p m).memory (p.base + a) ≡ m (p.base + a))
  unfolding publish admit_copy touch
  publish-keeps j page v ne found = elim (Option-cases (Dict.get key p.entries)) [
    | inr (own, hit) ↦
        rw (hit, publish)
          (λ kept. (rw (get-move_to_end key j p.entries) found, refl, λ a lo hi. refl))
    | inl miss ↦ elim (Option-cases (allocate len p).offset) [
      | inl full ↦
          let ev = allocate-Evicts len p in
          rw (miss, publish, full, admit_copy)
            (λ kept. (Evicts-kept j ev found kept, ev.base, λ a lo hi. refl))
      | inr (off, got) ↦
          let r = allocate len p in
          let ev = allocate-Evicts len p in
          let tiles = subst (AllocatedAt len r.pool) got (allocate-Allocated len p v) in
          rw (miss, publish, got, admit_copy)
            (λ kept.
              let stays = Evicts-kept j ev found kept in
              (
                rw (get-insert key j off len r.pool) (ground (arith, ==_iff key j, stays)),
                insert-base key off len r.pool ∙ ev.base,
                λ a lo hi. memmove_outside (r.pool.base + off) src len (p.base + a) m (
                    shift a off len p.base r.pool.base
                      (held_apart off len a j page tiles stays lo hi) ev.base),
              ))
    ]
  ]
